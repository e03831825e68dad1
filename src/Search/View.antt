-- ===== src/Search/View.antt =====
-- What dropdown.tsx and textfield.tsx render. The components of the Material library are elements.
use kuberpult.Prelude.{
  String, Bool, Option, none, some, List, [], ◌∷◌, ◌++◌, ◌==◌, any, map, get_or, opt_truthy,
  if◌then◌else◌,
}
use kuberpult.Store.Dialog.{Params}
use kuberpult.View.{Html, text_node, element, children, div, span, plain, titled, when}
use kuberpult.View.Widgets.{checkbox}
use kuberpult.Search.{is_empty, selected_teams, join}

module _ {E : Type 0} where
  -- `DropdownSelect`; a click on an entry raises the event of the list with the entry's value.
  unfoldable pub dropdown_select :
      (changes : (value : String) → E) (floating_label : String)
      (teams selected_teams : List String)
      → Html E
  dropdown_select changes floating_label teams selected =
      let entry = λ (value : String) (content : Html E).
        element "MenuItem" none (some (changes value)) (children (content ∷ [])) in
      plain "FormControl" (
        plain "InputLabel" (text_node floating_label ∷ [])
        ∷ titled "Select" (if is_empty selected then "" else floating_label) (
            text_node (join ", " selected)
            ∷ entry "" (text_node "Clear")
            ∷ map
                (λ (team : String). entry team (checkbox none (any (λ s. s == team) selected) team))
                teams)
        ∷ [])

  -- `Dropdown`
  unfoldable pub dropdown :
      (split : String → List String) (changes : (value : String) → E) (floating_label : String)
      (teams : List String)
      → Params
      → Html E
  dropdown split changes floating_label teams params =
      div (dropdown_select changes floating_label teams (selected_teams split params) ∷ [])

-- `Textfield`, with the text that it shows at first. Typing into the input raises an event, unless the
-- page's address says that these are the environments.
unfoldable pub textfield :
    {E : Type 0}
    → (includes : String → String → Bool) (types : E) (href : String)
      (floating_label leading_icon value : Option String)
    → Html E
textfield includes types href floating_label leading_icon value = div (
    span (
        span []
          ∷ when (opt_truthy floating_label)
              (span (span (text_node (get_or floating_label "") ∷ []) ∷ []))
        ++ span [] ∷ [])
      ∷ when (opt_truthy leading_icon) (plain "i" (text_node (get_or leading_icon "") ∷ []))
    ++ element "input" floating_label (if includes href "environments" then none else some types)
        (children (text_node (get_or value "") ∷ []))
      ∷ [])
