-- ===== src/ServiceLane/Menu/Selection.antt =====
-- The selection of environments in the dialog.
use kuberpult.Prelude.{
  ℕ, ◌≡◌, refl, ap, String, Bool, true, false, ◌&&◌, not, Option, none, some, List, [], ◌∷◌, ◌++◌,
  ◌==◌, eqb, if◌then◌else◌, any, get_elem?, arith, Bool-cases, inl, inr, eq_iff, is_some, fold,
  if_both, any-append,
}
use kuberpult.Api.{Application, UndeploySummary}
use kuberpult.ServiceLane.Menu.{
  Lane, click_menu_button, derive_undeploy_message, remove_first, toggle, Click, click, open_menu,
  leave_menu, menu_button, checkbox, confirm, cancel,
}

abbrev pub selects : List String → String → Bool
selects selected env = any (λ e. e == env) selected

-- No environment is selected twice.
abbrev pub IsSelection : List String → Type 0
IsSelection [] = Unit
IsSelection (x ∷ xs) = (any (λ e. e == x) xs ≡ false) × IsSelection xs

selects_eq : (x y : String) (xs : List String) → x == y ≡ true → selects xs x ≡ selects xs y
selects_eq x y xs e = ap (selects xs) ((eq_iff x y).0 e)

any-remove_first :
    (x y : String) (xs : List String)
    → IsSelection xs
    → any (λ e. e == y) (remove_first x xs) ≡ (not (x == y) && any (λ e. e == y) xs)
any-remove_first x y [] s = ground arith
any-remove_first x y (z ∷ zs) (h, s) =
    ground
      (arith, h, any-remove_first x y zs s, selects_eq z y zs, eq_iff z x, eq_iff x y, eq_iff z y)

-- If no environment is selected twice, a click on a checkbox changes whether its environment is
-- selected, and no other's.
pub any-toggle :
    (env other : String) (selected : List String)
    → IsSelection selected
    → any (λ e. e == other) (toggle env selected) ≡ (
        if env == other
        then not (any (λ e. e == other) selected)
        else any (λ e. e == other) selected)
unfolding toggle
any-toggle env other selected s = ground (
  arith,
  any-remove_first env other selected s,
  any-append (λ e. e == other) selected (env ∷ []),
  selects_eq env other selected,
)

remove_first-IsSelection :
    (x : String) (xs : List String) → IsSelection xs → IsSelection (remove_first x xs)
remove_first-IsSelection x [] s = tt
remove_first-IsSelection x (z ∷ zs) (h, s) =
    if_both IsSelection (z == x) zs (z ∷ remove_first x zs) s
      (ground (arith, h, any-remove_first x z zs s), remove_first-IsSelection x zs s)

IsSelection-append :
    (x : String) (xs : List String)
    → IsSelection xs
    → selects xs x ≡ false
    → IsSelection (xs ++ x ∷ [])
IsSelection-append x [] s f = (refl, tt)
IsSelection-append x (z ∷ zs) (h, s) f = (
  ground (arith, h, f, any-append (λ e. e == z) zs (x ∷ []), eq_iff x z, eq_iff z x),
  IsSelection-append x zs s (ground (arith, f)),
)

toggle-IsSelection :
    (env : String) (selected : List String)
    → IsSelection selected
    → IsSelection (toggle env selected)
unfolding toggle
toggle-IsSelection env selected s = elim (Bool-cases (selects selected env)) [
  | inl b ↦ rw b (remove_first-IsSelection env selected s)
  | inr b ↦ rw b (IsSelection-append env selected s b)
]

abbrev Keeps : Lane → Type 0
Keeps lane = IsSelection lane.selected_envs

menu_button-Keeps :
    (name : String) (summary : UndeploySummary) (i : ℕ) (lane : Lane)
    → Keeps lane
    → Keeps (click_menu_button name summary i lane)
menu_button-Keeps name summary i lane s = if_both Keeps (eqb i 1) _ _ s (
    if_both Keeps (eqb i 2) _ _ (if_both Keeps (is_some (derive_undeploy_message summary)) _ _ s s)
      s)

pub click-IsSelection :
    (app : Application) (envs : List String) (c : Click) (lane : Lane)
    → Keeps lane
    → Keeps (click app envs c lane)
unfolding click
click-IsSelection app envs open_menu lane s = s
click-IsSelection app envs leave_menu lane s = s
click-IsSelection app envs (menu_button i) lane s =
    if_both Keeps lane.menu_open _ _ (menu_button-Keeps app.name app.undeploy_summary i lane s) s
click-IsSelection app envs (checkbox i) lane s =
    elim (get_elem? envs i)
      as (λ (o : Option String). Keeps (elim o [
        | none ↦ lane
        | some env ↦
            if lane.show_env_selection_dialog
            then record lane { selected_envs = toggle env lane.selected_envs }
            else lane
      ])) [
        | none ↦ s
        | some env ↦
            if_both Keeps lane.show_env_selection_dialog _ _
              (toggle-IsSelection env lane.selected_envs s) s
      ]
click-IsSelection app envs confirm lane s = if_both Keeps lane.show_env_selection_dialog _ _ tt s
click-IsSelection app envs cancel lane s = if_both Keeps lane.show_env_selection_dialog _ _ tt s

-- If no environment is selected twice at first, none is, whatever is clicked in a lane.
pub clicks-IsSelection :
    (app : Application) (envs : List String) (clicks : List Click) (lane : Lane)
    → IsSelection lane.selected_envs
    → IsSelection (fold (click app envs) clicks lane).selected_envs
clicks-IsSelection app envs [] lane s = s
clicks-IsSelection app envs (c ∷ clicks) lane s =
    clicks-IsSelection app envs clicks (click app envs c lane) (click-IsSelection app envs c lane s)
