-- ===== src/Search.antt =====
-- services/frontend-service/src/ui/components: dropdown/dropdown.tsx and textfield/textfield.tsx, which
-- write the parameters of the page's address that Pages/Home/Home.tsx reads.
pub mod Filter
pub mod View
use kuberpult.Prelude.{
  ℕ, ◌+◌, String, Bool, true, false, ◌||◌, not, Option, none, some, List, [], ◌∷◌, ◌==◌, ltb, eqb,
  if◌then◌else◌, any, filter, length, get_or, concat,
}
use kuberpult.Store.Overview.{lookup}
use kuberpult.Store.Rollout.{put}
use kuberpult.Store.Dialog.{Params, delete}
use kuberpult.ServiceLane.Display.{find_index}

-- `ss.join(separator)`; a list that is written as a text is joined with commas.
abbrev pub join : (separator : String) → List String → String
join separator [] = ""
join separator (s ∷ []) = s
join separator (s ∷ t ∷ ss) = concat (s ∷ separator ∷ join separator (t ∷ ss) ∷ [])

abbrev pub is_named : String → Bool
is_named s = not (s == "")

-- `handleChange`, for the values that are selected in the list, of which the entry "Clear" is the
-- empty text.
unfoldable pub handle_change : (selected : List String) → Params → Params
handle_change selected params =
    if ltb 1 (find_index (λ s. s == "") selected) || eqb (length selected) 0
    then delete "teams" params
    else put "teams" (join "," (filter is_named selected)) params

-- `isEmpty`, for a list
unfoldable pub is_empty : List String → Bool
is_empty teams = eqb (length (filter is_named teams)) 0

-- `setQueryParam`, for the text that is typed
unfoldable pub set_query_param : String → Params → Params
set_query_param text params =
    if not (text == "") then put "application" text params else delete "application" params

-- What `split(',')` returns is an argument.
module _ (split : String → List String) where
  -- `selectedTeams`
  unfoldable pub selected_teams : Params → List String
  selected_teams params = split (get_or (lookup "teams" params) "")

  -- The teams that `Home` passes to `useFilteredApps`.
  unfoldable pub home_teams : Params → List String
  home_teams params = filter is_named (split (get_or (lookup "teams" params) ""))

-- `appNameParam` of `Home`
unfoldable pub app_name_param : Params → String
app_name_param params = get_or (lookup "application" params) ""
