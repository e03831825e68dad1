-- ===== src/Store/Cart/Plan.antt =====
-- What the cart promises, without the order of its list: for each slot, the action that is planned.
pub mod Refinement
use kuberpult.Prelude.{
  ◌≡◌, refl, sym, ap, ◌∙◌, ◌+◌, ◌≤◌, ℕ, String, Ordering, Bool, true, false, Option, none, some,
  List, [], ◌∷◌, ◌++◌, arith, length, leb, ltb, any, find, not, is_some, is_some-find, ◌||◌, filter,
  fold, All, All-imp, All-filter, if◌then◌else◌, Bool-cases, Option-cases, inl, inr,
}
use kuberpult.Api.{BatchAction}
use kuberpult.Store.Cart.{
  Cart, max_batch_actions, add_action, delete_action, delete_all_actions, nonzero,
}
use kuberpult.Store.Cart.Slots.{
  Slot, slot_of, claims, claims_iff, conflicts, Conflicts, conflicts_iff, IsDistinct,
}
use kuberpult.Store.Cart.Invariant.{
  IsValid, add_to, add_action-actions, add_action-IsValid, delete_action-IsValid,
  delete_all_actions-IsValid,
}

abbrev pub Plan : Type 0
Plan = Slot → Option BatchAction

-- The action of the cart that claims a slot.
abbrev pub claimant : Slot → List BatchAction → Option BatchAction
claimant s = find (λ act. claims (some s) (slot_of act.action))

abbrev pub plan_of : Cart → Plan
plan_of cart s = claimant s cart.actions

abbrev pub is_full : Cart → Bool
is_full cart = leb 100 (length cart.actions)

-- One addition, one removal, or the removal of all.
pub data Primitive : Type 0 where
  adds : BatchAction → Primitive
  removes : BatchAction → Primitive
  clears : Primitive

-- The specification: `same` tells whether two actions are printed alike. An addition is refused by a
-- full cart; else it claims its slot if that is free, leaves the plan as it is if the slot is taken,
-- and is not part of the plan if it has no slot.
pub data Step (same : BatchAction → BatchAction → Bool)
    : (full : Bool) → Plan → Primitive → Plan → Type 0 where
  refuses : {p q : Plan} (a : BatchAction) → ((s : Slot) → q s ≡ p s) → Step same true p (adds a) q
  ignores :
      {p q : Plan} (a : BatchAction)
      → slot_of a.action ≡ none
      → ((s : Slot) → q s ≡ p s)
      → Step same false p (adds a) q
  keeps :
      {p q : Plan} (a b : BatchAction) (t : Slot)
      → slot_of a.action ≡ some t
      → p t ≡ some b
      → ((s : Slot) → q s ≡ p s)
      → Step same false p (adds a) q
  claims_slot :
      {p q : Plan} (a : BatchAction) (t : Slot)
      → slot_of a.action ≡ some t
      → p t ≡ none
      → ((s : Slot) → q s ≡ (if claims (some s) (some t) then some a else p s))
      → Step same false p (adds a) q
  takes_out :
      {full : Bool} {p q : Plan} (a : BatchAction)
      → ((s : Slot)
          → q s ≡ (elim (p s) [ none ↦ none | some b ↦ if same b a then none else some b ]))
      → Step same full p (removes a) q
  empties : {full : Bool} {p q : Plan} → ((s : Slot) → q s ≡ none) → Step same full p clears q
