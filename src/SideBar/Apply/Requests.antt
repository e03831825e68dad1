-- ===== src/SideBar/Apply/Requests.antt =====
-- What is sent when the planned actions are applied, and what is left in the cart.
use kuberpult.Prelude.{
  ℕ, ◌≡◌, refl, String, true, false, not, Option, some, List, [], ◌∷◌, ◌++◌, eqb, truthy, length,
  All, arith, ap, ◌∙◌, ◌<◌, any, Bool, Ordering, Bool-cases, inl, inr, if◌then◌else◌,
}
use kuberpult.Api.{
  Action, BatchAction, create_environment_lock, create_environment_application_lock,
}
use kuberpult.SideBar.Apply.{
  SideBar, lock_creation_list, set_message, set_lock_id, batch_failed, new_lock_exists, can_apply,
  confirm, plans, succeeds, step,
}
use kuberpult.SideBar.Apply.Consistency.{
  each, set_message-KeepsSlots, set_lock_id-KeepsSlots, lock_creation_list-each,
}
use kuberpult.Store.Cart.Slots.{conflicts}
use kuberpult.Store.Cart.Invariant.{add_action-actions}

-- A planned lock that is ready to be sent: with this id and this message.
abbrev pub IsPrepared : String → String → Option Action → Type 0
IsPrepared lock_id message (some (create_environment_lock r)) =
    (r.lock_id ≡ lock_id) × (r.message ≡ message)
IsPrepared lock_id message (some (create_environment_application_lock r)) =
    (r.lock_id ≡ lock_id) × (r.message ≡ message)
IsPrepared lock_id message _ = Unit

module _ (lock_id message : String) where
  prepared :
      (action : Option Action)
      → IsPrepared lock_id message (set_lock_id lock_id (set_message message action))
  unfolding set_lock_id set_message
  prepared (some (create_environment_lock r)) = (refl, refl)
  prepared (some (create_environment_application_lock r)) = (refl, refl)
  prepared _ = tt

-- The actions of the request that `applyActions` sends with the message `message`.
abbrev pub batch : (lock_id message : String) → List BatchAction → List BatchAction
batch lock_id message xs = each (set_lock_id lock_id) (each (set_message message) xs)

batch-IsPrepared :
    (lock_id message : String) (xs : List BatchAction)
    → All (λ (a : BatchAction). IsPrepared lock_id message a.action) (batch lock_id message xs)
batch-IsPrepared lock_id message [] = tt
batch-IsPrepared lock_id message (a ∷ xs) =
    (prepared lock_id message a.action, batch-IsPrepared lock_id message xs)

-- If a new lock is planned, "Apply" is enabled and the dialog is open, confirming sends one request
-- more if the user is signed in, and none otherwise; that request has the planned actions, and every
-- lock that it creates has the message that was typed, which is not empty, and the new lock id.
pub confirm_sends :
    (auth_ready : Bool) (lock_id : String) (s : SideBar)
    → s.show_confirmation_dialog ≡ true
    → can_apply s ≡ true
    → new_lock_exists s ≡ true
    → ((confirm auth_ready lock_id s).sent ≡ (
        if auth_ready then s.sent ++ batch lock_id s.lock_message s.cart.actions ∷ [] else s.sent))
      × All
          (λ (a : BatchAction). IsPrepared lock_id s.lock_message a.action)
          (batch lock_id s.lock_message s.cart.actions)
      × (truthy s.lock_message ≡ true)
unfolding confirm can_apply
confirm_sends auth_ready lock_id s open_dialog enabled locks =
    let typed : truthy s.lock_message ≡ true = ground arith in
    let prepared = batch-IsPrepared lock_id s.lock_message s.cart.actions in
    elim (Bool-cases auth_ready) [
      | inl signed_in ↦ rw signed_in (simp (open_dialog, typed), prepared, typed)
      | inr unknown_user ↦ rw unknown_user (simp (open_dialog, typed), prepared, typed)
    ]

can_apply_untyped :
    (s : SideBar) → s.lock_message ≡ "" → new_lock_exists s ≡ true → can_apply s ≡ false
unfolding can_apply
can_apply_untyped s untyped locks =
    let blank : truthy s.lock_message ≡ false = ap truthy untyped in ground arith

batch-locks :
    (lock_id message : String) (xs : List BatchAction)
    → length (lock_creation_list (batch lock_id message xs)) ≡ length (lock_creation_list xs)
batch-locks lock_id message xs =
    lock_creation_list-each (set_lock_id lock_id) (set_lock_id-KeepsSlots lock_id)
      (each (set_message message) xs)
    ∙ lock_creation_list-each (set_message message) (set_message-KeepsSlots message) xs

-- What confirming leaves, on the path that sends.
confirm-eq :
    (lock_id : String) (s : SideBar)
    → s.show_confirmation_dialog ≡ true
    → truthy s.lock_message ≡ true
    → (confirm true lock_id s).cart.actions ≡ batch lock_id s.lock_message s.cart.actions
      × ((confirm true lock_id s).lock_message ≡ "")
unfolding confirm
confirm-eq lock_id s open_dialog typed = (simp (open_dialog, typed), simp (open_dialog, typed))

failed-disabled :
    (code : ℕ) (message : String) (s : SideBar)
    → s.lock_message ≡ ""
    → new_lock_exists s ≡ true
    → can_apply (batch_failed code message s) ≡ false
unfolding batch_failed
failed-disabled code message s untyped locks =
    can_apply_untyped (batch_failed code message s) untyped locks

-- If a new lock is planned, "Apply" is enabled, the dialog is open, and the request that confirming
-- sends fails, the cart still holds the actions that were sent, the spinner is gone, and "Apply" is
-- disabled.
pub failure_keeps_actions :
    (lock_id : String) (code : ℕ) (message : String) (s : SideBar)
    → s.show_confirmation_dialog ≡ true
    → can_apply s ≡ true
    → new_lock_exists s ≡ true
    → ((batch_failed code message (confirm true lock_id s)).cart.actions
        ≡ batch lock_id s.lock_message s.cart.actions)
      × ((batch_failed code message (confirm true lock_id s)).show_spinner ≡ false)
      × (can_apply (batch_failed code message (confirm true lock_id s)) ≡ false)
unfolding can_apply batch_failed
failure_keeps_actions lock_id code message s open_dialog enabled locks =
    let typed : truthy s.lock_message ≡ true = ground arith in
    let (kept, untyped) = confirm-eq lock_id s open_dialog typed in
    let planned : new_lock_exists (confirm true lock_id s) ≡ true =
      ap (λ xs. not (eqb (length (lock_creation_list xs)) 0)) kept
      ∙ ap (λ n. not (eqb n 0)) (batch-locks lock_id s.lock_message s.cart.actions)
      ∙ locks in
    (kept, refl, failed-disabled code message (confirm true lock_id s) untyped planned)

confirm-sent :
    (lock_id : String) (s : SideBar)
    → s.show_confirmation_dialog ≡ true
    → (confirm true lock_id s).sent ≡ s.sent ++ (confirm true lock_id s).cart.actions ∷ []
unfolding confirm
confirm-sent lock_id s open_dialog = elim (Bool-cases (truthy s.lock_message)) [
  | inl typed ↦ simp (open_dialog, typed)
  | inr untyped ↦ simp (open_dialog, untyped)
]

module _ (stringify : BatchAction → String) (locale_compare : String → String → Ordering) where
  -- What is planned while a request is under way is lost when it succeeds: after confirming while signed
  -- in, in the open dialog, an action whose slot is free in a cart that is not full is added behind the
  -- actions of the request; once the request succeeds, the cart is empty, and what was sent is that
  -- request, without the action.
  pub success_discards :
      (lock_id : String) (a : BatchAction) (s : SideBar)
      → s.show_confirmation_dialog ≡ true
      → length (confirm true lock_id s).cart.actions < 100
      → any (conflicts a) (confirm true lock_id s).cart.actions ≡ false
      → let requested = (confirm true lock_id s).cart.actions in
        let meanwhile = step stringify locale_compare (plans (a ∷ [])) (confirm true lock_id s) in
        let answered = step stringify locale_compare succeeds meanwhile in
        (meanwhile.cart.actions ≡ requested ++ a ∷ [])
        × (answered.cart.actions ≡ [])
        × (answered.sent ≡ s.sent ++ requested ∷ [])
  unfolding step
  success_discards lock_id a s open_dialog room free = (
    add_action-actions a (confirm true lock_id s).cart ∙ ground (arith, room, free),
    refl,
    confirm-sent lock_id s open_dialog,
  )
