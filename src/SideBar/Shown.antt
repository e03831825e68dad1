-- ===== src/SideBar/Shown.antt =====
-- What can be clicked on the side bar.
use kuberpult.Prelude.{
  ◌≡◌, refl, String, Bool, true, false, ◌&&◌, ◌||◌, none, some, Option, List, [], ◌∷◌, ◌++◌, eqb,
  ltb, length, map, flat_map, Bool-cases, inl, inr, append-nil, append_assoc, if◌then◌else◌,
}
use kuberpult.Api.{FrontendConfig, BatchAction, Overview, Release}
use kuberpult.Store.Cart.{Cart, delete_action}
use kuberpult.Store.Locks.{AllLocks, DisplayLock, all_locks, environments, locks_similar_to}
use kuberpult.View.{offered, offered_by, children, Runtime, when, div}
use kuberpult.View.Offers.{offered_by-append}
use kuberpult.View.Widgets.{confirmation_dialog, spinner}
use kuberpult.Chips.View.{release_version_with_links}
use kuberpult.SideBar.Apply.{SideBar, can_apply, new_lock_exists}
use kuberpult.SideBar.DeleteAll.{handle_add_all}
use kuberpult.SideBar.View.{
  delete_all_section, side_bar_list_item, side_bar_list, locks_rendered, confirmation_dialog_of,
  footer, side_bar,
}
use kuberpult.Chips.Silent.{release-offered, items-offered}

module _ {E : Type 0} (rt : Runtime) (config : FrontendConfig) (stringify : BatchAction → String)
    (plans : (Cart → Cart) → E) (toggles types applies confirms cancels : E) (o : Overview) where
  locks-offered :
      (heading : String) (ls : List DisplayLock)
      → offered_by (
          children (
            locks_rendered rt config stringify plans toggles types applies confirms cancels o
              heading ls))
        ≡ []
  unfolding locks_rendered offered
  locks-offered heading ls = elim (Bool-cases (eqb (length ls) 0)) [
    | inl empty ↦ rw (locks_rendered, empty) refl
    | inr some_locks ↦
        rw (locks_rendered, some_locks) (simp (append-nil, items-offered rt config ls))
  ]

  -- The buttons of the dialog, while it is open.
  abbrev pub dialog_events : Bool → List E
  dialog_events is_open = if is_open then cancels ∷ confirms ∷ [] else []

  dialog-offered :
      (is_open : Bool) (conflicting : AllLocks)
      → offered (
          confirmation_dialog_of rt config stringify plans toggles types applies confirms cancels o
            is_open conflicting)
        ≡ dialog_events is_open
  unfolding confirmation_dialog_of confirmation_dialog offered
  dialog-offered is_open conflicting =
      elim (Bool-cases
        (ltb 0 (length conflicting.environment_locks) || ltb 0 (length conflicting.app_locks))) [
          | inl conflicts ↦ elim (Bool-cases is_open) [
            | inl shown ↦
                rw (confirmation_dialog_of, conflicts, shown)
                  (simp (append-nil, offered_by-append, locks-offered))
            | inr hidden ↦ rw (confirmation_dialog_of, conflicts, hidden) refl
          ]
          | inr free ↦ elim (Bool-cases is_open) [
            | inl shown ↦ rw (confirmation_dialog_of, free, shown) refl
            | inr hidden ↦ rw (confirmation_dialog_of, free, hidden) refl
          ]
        ]

  footer-offered :
      (s : SideBar)
      → offered (footer rt config stringify plans toggles types applies confirms cancels o s)
        ≡ (if can_apply s then applies ∷ [] else []) ++ dialog_events s.show_confirmation_dialog
  unfolding footer spinner offered
  footer-offered s = elim (Bool-cases (can_apply s)) [
    | inl ready ↦ elim (Bool-cases s.show_spinner) [
      | inl spins ↦ rw (footer, ready, spins) (simp (append-nil, dialog-offered))
      | inr still ↦ rw (footer, ready, still) (simp (append-nil, dialog-offered))
    ]
    | inr disabled ↦ elim (Bool-cases s.show_spinner) [
      | inl spins ↦ rw (footer, disabled, spins) (simp (append-nil, dialog-offered))
      | inr still ↦ rw (footer, disabled, still) (simp (append-nil, dialog-offered))
    ]
  ]

  -- The deletion of all similar locks, if there are any.
  abbrev pub similar_events : AllLocks → List E
  similar_events similar =
      if eqb (length similar.environment_locks) 0 && eqb (length similar.app_locks) 0
      then []
      else plans (λ cart. (handle_add_all similar cart).0) ∷ []

  -- What an item of the list offers: that, and to take the action out of the cart.
  abbrev pub item_events : List BatchAction → BatchAction → List E
  item_events actions action =
      similar_events
        (locks_similar_to (some action) actions (all_locks (environments o.environment_groups)))
      ++ plans (delete_action stringify rt.locale_compare action) ∷ []

  section-offered :
      (lock_id : Option String) (similar : AllLocks)
      → offered_by (
          children (
            delete_all_section rt config stringify plans toggles types applies confirms cancels o
              lock_id similar))
        ≡ similar_events similar
  unfolding delete_all_section offered
  section-offered lock_id similar =
      elim (Bool-cases
        (eqb (length similar.environment_locks) 0 && eqb (length similar.app_locks) 0)) [
          | inl alone ↦ rw (delete_all_section, alone) refl
          | inr others ↦ rw (delete_all_section, others) refl
        ]

  release_of_item-offered :
      (b : Bool) (application : String) (r : Option Release)
      → offered_by (
          children (elim r [
            | none ↦ []
            | some r ↦ when b (release_version_with_links {E = E} rt config application r)
          ]))
        ≡ []
  unfolding offered
  release_of_item-offered b application none = refl
  release_of_item-offered true application (some r) =
      rw (release-offered rt config application r) refl
  release_of_item-offered false application (some r) = refl

  item-offered :
      (actions : List BatchAction) (action : BatchAction)
      → offered_by (
          children (
            side_bar_list_item rt config stringify plans toggles types applies confirms cancels o
              actions action))
        ≡ item_events actions action
  unfolding side_bar_list_item offered
  item-offered actions action =
      simp (append-nil, offered_by-append, release_of_item-offered, section-offered)

  list-offered :
      (all actions : List BatchAction)
      → offered_by (
          children (
            map
              (λ (action : BatchAction). div (
                side_bar_list_item rt config stringify plans toggles types applies confirms cancels
                  o all action))
              actions))
        ≡ flat_map (item_events all) actions
  unfolding offered
  list-offered all [] = refl
  list-offered all (action ∷ actions) = rw (item-offered all action, list-offered all actions) refl

  -- The side bar offers to hide it, then for each planned action to plan the deletion of the similar
  -- locks, if there are any, and to take the action out again, then to type a message exactly if a new
  -- lock is planned, "Apply" exactly if it can be applied, and the two buttons of the dialog exactly while that is open.
  pub side_bar-offered :
      (s : SideBar)
      → offered (side_bar rt config stringify plans toggles types applies confirms cancels o s)
        ≡ toggles ∷ flat_map (item_events s.cart.actions) s.cart.actions
          ++ (if new_lock_exists s then types ∷ [] else [])
          ++ (if can_apply s then applies ∷ [] else [])
          ++ dialog_events s.show_confirmation_dialog
  unfolding side_bar side_bar_list offered
  side_bar-offered s = elim (Bool-cases (new_lock_exists s)) [
    | inl locks ↦
        rw (side_bar, locks) (simp (append-nil, append_assoc, list-offered, footer-offered))
    | inr no_locks ↦
        rw (side_bar, no_locks) (simp (append-nil, append_assoc, list-offered, footer-offered))
  ]
