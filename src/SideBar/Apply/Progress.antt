-- ===== src/SideBar/Apply/Progress.antt =====
-- That planned actions can always be sent.
use kuberpult.Prelude.{
  ◌≡◌, refl, String, true, false, ◌<◌, List, [], ◌∷◌, ◌++◌, length, truthy, Ordering, fold, map,
  arith,
}
use kuberpult.Api.{BatchAction}
use kuberpult.SideBar.Apply.{
  SideBar, Event, types, clicks_apply, confirms, succeeds, step, can_apply, set_message,
  set_lock_id, click_apply, update_message, confirm, apply_actions, apply_message, send_batch,
}

-- To type a message, click on "Apply", confirm, and have the request succeed.
abbrev pub sending : (message lock_id : String) → List Event
sending message lock_id = types message ∷ clicks_apply ∷ confirms true lock_id ∷ succeeds ∷ []

-- The actions with this message and lock id in the new locks.
abbrev pub filled : (message lock_id : String) → List BatchAction → List BatchAction
filled message lock_id actions =
    map (λ (a : BatchAction). record a { action = set_lock_id lock_id a.action })
      (map (λ (a : BatchAction). record a { action = set_message message a.action }) actions)

ready :
    (s : SideBar) (message : String)
    → 0 < length s.cart.actions
    → truthy message ≡ true
    → can_apply (record s { lock_message = message }) ≡ true
unfolding can_apply
ready s message some_action typed = ground (arith, some_action, typed)

abbrev opened : (message : String) → SideBar → SideBar
opened message s = record s { lock_message = message; show_confirmation_dialog = true }

opens :
    (s : SideBar) (message : String)
    → 0 < length s.cart.actions
    → truthy message ≡ true
    → click_apply (update_message message s) ≡ opened message s
unfolding click_apply update_message
opens s message some_action typed = simp (ready s message some_action typed) refl

confirmed :
    (s : SideBar) (message lock_id : String)
    → truthy message ≡ true
    → let e = confirm true lock_id (opened message s) in
      (e.sent ≡ s.sent ++ filled message lock_id s.cart.actions ∷ [])
      × (e.show_confirmation_dialog ≡ false)
unfolding confirm apply_actions apply_message send_batch
confirmed s message lock_id typed = simp typed (refl, refl)

module _ (stringify : BatchAction → String) (locale_compare : String → String → Ordering) where
  -- From every state in which an action is planned, if the user is signed in, typing any message that is
  -- not empty, applying and confirming sends one more request, of all planned actions with the message
  -- and the lock id in their new locks; once it succeeds, nothing is planned, the dialog is closed, and
  -- the spinner is not shown.
  pub sending-empties :
      (s : SideBar) (message lock_id : String)
      → 0 < length s.cart.actions
      → truthy message ≡ true
      → let e = fold (step stringify locale_compare) (sending message lock_id) s in
        (e.sent ≡ s.sent ++ filled message lock_id s.cart.actions ∷ [])
        × (e.cart.actions ≡ [])
        × (e.show_spinner ≡ false)
        × (e.show_confirmation_dialog ≡ false)
  unfolding step
  sending-empties s message lock_id some_action typed =
      rw (opens s message some_action typed)
        ((confirmed s message lock_id typed).0, refl, refl, (confirmed s message lock_id typed).1)
