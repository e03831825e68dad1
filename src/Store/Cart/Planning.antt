-- ===== src/Store/Cart/Planning.antt =====
-- What the cart holds after a list of actions is added.
use kuberpult.Prelude.{
  refl, All, any-append, ◌<◌, some, ◌+◌, ◌≤◌, ◌≡◌, sym, ◌∙◌, ap, subst, false, true, List, [], ◌∷◌,
  ◌++◌, arith, length, take, take_all, take-append_left, append_assoc, append-nil, length-append,
  any, ltb, if◌then◌else◌, Bool-cases, inl, inr,
}
use kuberpult.Api.{BatchAction}
use kuberpult.Store.Cart.{
  Cart, max_batch_actions, add_action, append_action, update_actions, delete_all_actions,
}
use kuberpult.Store.Cart.Slots.{Slot, slot_of, conflicts, conflicts_iff}
use kuberpult.Store.Cart.Invariant.{add_to, add_action-actions}

-- One more action, if its slot is free.
abbrev keep_first : BatchAction → List BatchAction → List BatchAction
keep_first a kept = if any (conflicts a) kept then kept else kept ++ a ∷ []

-- `kept`, and behind it the first action of the list for every slot that is not taken yet, in the
-- order of the list.
abbrev pub first_per_slot : List BatchAction → List BatchAction → List BatchAction
first_per_slot kept [] = kept
first_per_slot kept (a ∷ rest) = first_per_slot (keep_first a kept) rest

first_per_slot-prefix :
    (kept actions : List BatchAction)
    → (more : List BatchAction) × (first_per_slot kept actions ≡ kept ++ more)
first_per_slot-prefix kept [] = ([], sym (append-nil kept))
first_per_slot-prefix kept (a ∷ rest) = elim (Bool-cases (any (conflicts a) kept)) [
  | inl taken ↦ rw taken (first_per_slot-prefix kept rest)
  | inr free ↦
      let (more, e) = first_per_slot-prefix (kept ++ a ∷ []) rest in
      (a ∷ more, rw free (e ∙ append_assoc kept (a ∷ []) more))
]

take-first_per_slot_full :
    (kept actions : List BatchAction) → take (length kept) (first_per_slot kept actions) ≡ kept
take-first_per_slot_full kept actions =
    let (more, e) = first_per_slot-prefix kept actions in rw e (take-append_left kept more)

full_stays :
    (kept actions : List BatchAction)
    → length kept ≡ max_batch_actions
    → take max_batch_actions (first_per_slot kept actions) ≡ kept
full_stays kept actions e =
    subst (λ n. take n (first_per_slot kept actions) ≡ kept) e
      (take-first_per_slot_full kept actions)

add_to_full :
    (a : BatchAction) (xs : List BatchAction)
    → ltb max_batch_actions (length xs + 1) ≡ true
    → length xs ≤ max_batch_actions
    → (add_to a xs ≡ xs) × (length xs ≡ max_batch_actions)
add_to_full a xs full h = ground arith

add_to_room :
    (a : BatchAction) (xs : List BatchAction)
    → ltb max_batch_actions (length xs + 1) ≡ false
    → (add_to a xs ≡ keep_first a xs) × (length (keep_first a xs) ≤ max_batch_actions)
add_to_room a xs room = ground (arith, length-append xs (a ∷ []))

-- From a cart of at most a hundred actions, `appendAction` leaves the cart with its old actions
-- and behind them the first action of the list for each slot that was free, in the order of the
-- list, cut off at a hundred.
pub append_action-eq-take :
    (actions : List BatchAction) (cart : Cart)
    → length cart.actions ≤ max_batch_actions
    → (append_action actions cart).actions
      ≡ take max_batch_actions (first_per_slot cart.actions actions)
unfolding append_action
append_action-eq-take [] cart h = sym (take_all max_batch_actions cart.actions h)
append_action-eq-take (a ∷ actions) cart h =
    elim (Bool-cases (ltb max_batch_actions (length cart.actions + 1))) [
      | inl full ↦
          let (same, long) = add_to_full a cart.actions full h in
          let e : (add_action a cart).actions ≡ cart.actions = add_action-actions a cart ∙ same in
          append_action-eq-take actions (add_action a cart) (rw e h)
          ∙ (rw e (
              full_stays cart.actions actions long
              ∙ sym (full_stays cart.actions (a ∷ actions) long)))
      | inr room ↦
          let (kept, fits) = add_to_room a cart.actions room in
          let e = add_action-actions a cart ∙ kept in
          append_action-eq-take actions (add_action a cart) (rw e fits)
          ∙ ap (λ xs. take max_batch_actions (first_per_slot xs actions)) e
    ]

-- Whatever was planned before, `updateActions` leaves the first action of the list for each slot,
-- in the order of the list, cut off at a hundred.
pub update_actions-eq-take :
    (actions : List BatchAction) (cart : Cart)
    → (update_actions actions cart).actions ≡ take max_batch_actions (first_per_slot [] actions)
unfolding update_actions delete_all_actions
update_actions-eq-take actions cart =
    append_action-eq-take actions (delete_all_actions cart) (omega arith)

-- Adding actions in two rounds is adding them in one.
pub append_action-append :
    (xs ys : List BatchAction) (cart : Cart)
    → append_action (xs ++ ys) cart ≡ append_action ys (append_action xs cart)
unfolding append_action
append_action-append [] ys cart = refl
append_action-append (a ∷ xs) ys cart = append_action-append xs ys (add_action a cart)

add_to-prefix :
    (a : BatchAction) (xs : List BatchAction)
    → (more : List BatchAction) × (add_to a xs ≡ xs ++ more)
add_to-prefix a xs = elim (Bool-cases (ltb max_batch_actions (length xs + 1))) [
  | inl full ↦ ([], rw full (sym (append-nil xs)))
  | inr room ↦ elim (Bool-cases (any (conflicts a) xs)) [
    | inl taken ↦ ([], rw (room, taken) (sym (append-nil xs)))
    | inr free ↦ (a ∷ [], rw (room, free))
  ]
]

-- Adding actions removes none and moves none: the old actions stay in front.
pub append_action-prefix :
    (actions : List BatchAction) (cart : Cart)
    → (more : List BatchAction) × ((append_action actions cart).actions ≡ cart.actions ++ more)
unfolding append_action
append_action-prefix [] cart = ([], sym (append-nil cart.actions))
append_action-prefix (a ∷ actions) cart =
    let (one, e) = add_to-prefix a cart.actions in
    let (more, f) = append_action-prefix actions (add_action a cart) in
    (
      one ++ more,
      f
          ∙ ap (λ xs. xs ++ more) (add_action-actions a cart ∙ e)
          ∙ append_assoc cart.actions one more,
    )

-- An action that claims a slot.
abbrev pub ClaimsSlot : BatchAction → Type 0
ClaimsSlot a = (s : Slot) × (slot_of a.action ≡ some s)

add_to-planned :
    (a : BatchAction) (xs more : List BatchAction)
    → ClaimsSlot a
    → length (add_to a xs ++ more) < max_batch_actions
    → any (conflicts a) (add_to a xs ++ more) ≡ true
add_to-planned a xs more (s, e) room =
    let own : conflicts a a ≡ true = (conflicts_iff a a).1 (s, e, e) in
    ground (
      arith,
      length-append (add_to a xs) more,
      any-append (conflicts a) (add_to a xs) more,
      any-append (conflicts a) xs (a ∷ []),
    )

-- If the cart is not full afterwards, every slot that one of the added actions claims is taken.
pub append_action-planned :
    (actions : List BatchAction) (cart : Cart)
    → All ClaimsSlot actions
    → length (append_action actions cart).actions < max_batch_actions
    → All (λ a. any (conflicts a) (append_action actions cart).actions ≡ true) actions
unfolding append_action
append_action-planned [] cart h room = tt
append_action-planned (a ∷ actions) cart (c, h) room =
    let (more, e) = append_action-prefix actions (add_action a cart) in
    let f = e ∙ ap (λ xs. xs ++ more) (add_action-actions a cart) in
    (
      rw f (add_to-planned a cart.actions more c (rw f at room)),
      append_action-planned actions (add_action a cart) h room,
    )
