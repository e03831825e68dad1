-- ===== src/View/Widgets.antt =====
-- services/frontend-service/src/ui/components: dialog/ConfirmationDialog.tsx, dropdown/checkbox.tsx,
-- Spinner/Spinner.tsx and FormattedDate/FormattedDate.tsx.
use kuberpult.Prelude.{ℕ, String, Bool, false, Option, none, some, [], ◌∷◌, if◌then◌else◌, concat}
use kuberpult.View.{Html, text_node, element, button, children, div, plain, titled, Runtime}
use kuberpult.Dates.{get_relative_date}

module _ {E : Type 0} where
  -- `ConfirmationDialog`
  unfoldable pub confirmation_dialog :
      (on_confirm on_cancel : E) (open_dialog : Bool) (header_label confirm_label : String)
      → Html E
      → Html E
  confirmation_dialog on_confirm on_cancel open_dialog header_label confirm_label content =
      if open_dialog
      then div (
          div (text_node header_label ∷ [])
          ∷ plain "hr" []
          ∷ div (content ∷ [])
          ∷ plain "hr" []
          ∷ div (
              div (button "Cancel" false (some on_cancel) ∷ [])
              ∷ div (button confirm_label false (some on_confirm) ∷ [])
              ∷ [])
          ∷ [])
      else div []

  -- `Checkbox`; its button has no handler of its own.
  unfoldable pub checkbox : (on_click : Option E) (enabled : Bool) (label : String) → Html E
  checkbox on_click enabled label =
      element "span" none on_click
        (children (button (if enabled then "☑" else "☐") false none ∷ text_node label ∷ []))

  -- `Spinner`
  unfoldable pub spinner : String → Html E
  spinner message = div (div [] ∷ div (text_node (concat (message ∷ "..." ∷ [])) ∷ []) ∷ [])

  -- `FormattedDate`, with the date that it was rendered with last.
  unfoldable pub formatted_date : Runtime → ℕ → Html E
  formatted_date l created_at =
      titled "span" (l.date_text created_at)
        (plain "i" (text_node (get_relative_date l.number_text l.now (some created_at)) ∷ []) ∷ [])
