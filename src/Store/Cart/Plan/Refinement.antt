-- ===== src/Store/Cart/Plan/Refinement.antt =====
-- That `addAction`, `deleteAction` and `deleteAllActions` do what the plan promises.
use kuberpult.Prelude.{
  ◌≡◌, refl, sym, ap, ◌∙◌, String, Ordering, Bool, true, false, Option, none, some, List, [], ◌∷◌,
  ◌++◌, arith, length, leb, any, find, not, is_some, is_some-find, ◌||◌, filter, All, All-imp,
  All-filter, if◌then◌else◌, Bool-cases, Option-cases, inl, inr,
}
use kuberpult.Api.{BatchAction}
use kuberpult.Store.Cart.{
  Cart, max_batch_actions, add_action, delete_action, delete_all_actions, nonzero,
}
use kuberpult.Store.Cart.Slots.{Slot, slot_of, claims, claims_iff, conflicts, Conflicts, IsDistinct}
use kuberpult.Store.Cart.Invariant.{
  IsValid, add_to, add_action-actions, add_action-IsValid, delete_action-IsValid,
  delete_all_actions-IsValid,
}
use kuberpult.Store.Cart.Plan.{
  claimant, plan_of, is_full, Primitive, adds, removes, clears, Step, refuses, ignores, keeps,
  claims_slot, takes_out, empties,
}

claimant-append :
    (s : Slot) (xs : List BatchAction) (a : BatchAction) (o : Option Slot)
    → slot_of a.action ≡ o
    → claimant s (xs ++ a ∷ []) ≡ (elim (claimant s xs) [
      | none ↦ if claims (some s) o then some a else none
      | some b ↦ some b
    ])
claimant-append s [] a o e = ap (λ o. if claims (some s) o then some a else none) e
claimant-append s (x ∷ xs) a o e = elim (Bool-cases (claims (some s) (slot_of x.action))) [
  | inl here ↦ rw here refl
  | inr later ↦ rw later (claimant-append s xs a o e)
]

-- No member of the list claims the slot.
claimant-none :
    (s : Slot) (xs : List BatchAction)
    → All (λ x. claims (some s) (slot_of x.action) ≡ false) xs
    → claimant s xs ≡ none
claimant-none s [] h = refl
claimant-none s (x ∷ xs) (e, h) = rw e (claimant-none s xs h)

unclaimed :
    (s : Slot) (x : BatchAction)
    → claims (some s) (slot_of x.action) ≡ true
    → (b : BatchAction) → ¬ Conflicts x b
    → claims (some s) (slot_of b.action) ≡ false
unclaimed s x here b apart = elim (Bool-cases (claims (some s) (slot_of b.action))) [
  | inr free ↦ free
  | inl taken ↦
      let (u, own, at_x) = (claims_iff (some s) (slot_of x.action)).0 here in
      let (v, same, at_b) = (claims_iff (some s) (slot_of b.action)).0 taken in
      absurd (apart (u, at_x, at_b ∙ sym same ∙ own))
]

-- In a distinct list, what is left of the claimant is what is left of the list's.
claimant-filter :
    (s : Slot) (p : BatchAction → Bool) (xs : List BatchAction)
    → IsDistinct xs
    → claimant s (filter p xs)
      ≡ (elim (claimant s xs) [ none ↦ none | some b ↦ if p b then some b else none ])
claimant-filter s p [] d = refl
claimant-filter s p (x ∷ xs) (alone, d) = elim (Bool-cases (claims (some s) (slot_of x.action))) [
  | inl here ↦ elim (Bool-cases (p x)) [
    | inl kept ↦ rw (kept, here, kept) refl
    | inr gone ↦
        rw (gone, here, gone)
          (claimant-none s (filter p xs) (
            All-filter (λ b. claims (some s) (slot_of b.action) ≡ false) p xs
              (All-imp (λ b. ¬ Conflicts x b) _ (unclaimed s x here) xs alone)))
  ]
  | inr later ↦ elim (Bool-cases (p x)) [
    | inl kept ↦ rw (kept, later) (claimant-filter s p xs d)
    | inr gone ↦ rw (gone, later) (claimant-filter s p xs d)
  ]
]

any-conflicts :
    (a : BatchAction) (t : Slot) (xs : List BatchAction)
    → slot_of a.action ≡ some t
    → any (conflicts a) xs ≡ is_some (claimant t xs)
any-conflicts a t xs e =
    ap (λ o. any (λ x. claims o (slot_of x.action)) xs) e
    ∙ sym (is_some-find (λ act. claims (some t) (slot_of act.action)) xs)

no-conflicts :
    (a : BatchAction) (xs : List BatchAction)
    → slot_of a.action ≡ none
    → any (conflicts a) xs ≡ false
unfolding claims
no-conflicts a [] e = refl
no-conflicts a (x ∷ xs) e =
    rw (no-conflicts a xs e) (ap (λ o. claims o (slot_of x.action) || false) e)

add_to-added :
    (a : BatchAction) (xs : List BatchAction)
    → leb max_batch_actions (length xs) ≡ false
    → any (conflicts a) xs ≡ false
    → add_to a xs ≡ xs ++ a ∷ []
add_to-added a xs room free = ground (arith, room, free)

swapped :
    (o : Option BatchAction) (p : BatchAction → Bool)
    → (elim o [ none ↦ none | some b ↦ if p b then some b else none ])
      ≡ (elim o [ none ↦ none | some b ↦ if not (p b) then none else some b ])
swapped none p = refl
swapped (some b) p = elim (Bool-cases (p b)) [ inl kept ↦ rw kept refl | inr gone ↦ rw gone refl ]

some_or_none :
    (own : Bool) (a : BatchAction) (o : Option BatchAction)
    → own ≡ false
    → (elim o [ none ↦ if own then some a else none | some b ↦ some b ]) ≡ o
some_or_none own a none other = rw other refl
some_or_none own a (some b) other = refl

-- A free slot is claimed, and no other.
claimed :
    (s t : Slot) (xs : List BatchAction) (a : BatchAction)
    → slot_of a.action ≡ some t
    → claimant t xs ≡ none
    → claimant s (xs ++ a ∷ []) ≡ (if claims (some s) (some t) then some a else claimant s xs)
claimed s t xs a e free = elim (Bool-cases (claims (some s) (some t))) [
  | inl own ↦
      let (u, at_s, at_t) = (claims_iff (some s) (some t)).0 own in
      let same : claimant s xs ≡ none =
        ap (λ (o : Option Slot). find (λ act. claims o (slot_of act.action)) xs) (at_s ∙ sym at_t)
        ∙ free in
      claimant-append s xs a (some t) e ∙ rw (same, own) refl
  | inr other ↦
      claimant-append s xs a (some t) e ∙ some_or_none _ a (claimant s xs) other ∙ rw other refl
]

module _ (stringify : BatchAction → String) (locale_compare : String → String → Ordering) where
  -- Whether two actions are printed alike, so that removing one removes the other.
  abbrev pub is_same : BatchAction → BatchAction → Bool
  is_same b a = not (nonzero (locale_compare (stringify b) (stringify a)))

  abbrev pub apply : Primitive → Cart → Cart
  apply (adds a) = add_action a
  apply (removes a) = delete_action stringify locale_compare a
  apply clears = delete_all_actions

  adds-Step :
      (a : BatchAction) (cart : Cart)
      → Step is_same (is_full cart) (plan_of cart) (adds a) (plan_of (add_action a cart))
  unfolding claims
  adds-Step a cart = elim (Bool-cases (is_full cart)) [
    | inl full ↦
        let same : add_to a cart.actions ≡ cart.actions = ground (arith, full) in
        rw full (refuses a λ s. ap (claimant s) (add_action-actions a cart ∙ same))
    | inr room ↦ elim (Option-cases (slot_of a.action)) [
      | inl unslotted ↦
          let added = add_to-added a cart.actions room (no-conflicts a cart.actions unslotted) in
          rw room (
            ignores a unslotted λ s.
              ap (claimant s) (add_action-actions a cart ∙ added)
              ∙ claimant-append s cart.actions a none unslotted
              ∙ some_or_none _ a (claimant s cart.actions) refl)
      | inr (t, slot) ↦ elim (Option-cases (claimant t cart.actions)) [
        | inr (b, taken) ↦
            let kept : add_to a cart.actions ≡ cart.actions =
              ground (arith, room, any-conflicts a t cart.actions slot, ap is_some taken) in
            rw room (keeps a b t slot taken λ s. ap (claimant s) (add_action-actions a cart ∙ kept))
        | inl free ↦
            let added =
              add_to-added a cart.actions room
                (any-conflicts a t cart.actions slot ∙ ap is_some free) in
            rw room (
              claims_slot a t slot free λ s.
                ap (claimant s) (add_action-actions a cart ∙ added)
                ∙ claimed s t cart.actions a slot free)
      ]
    ]
  ]

  apply-Step :
      (c : Primitive) (cart : Cart)
      → IsValid cart
      → Step is_same (is_full cart) (plan_of cart) c (plan_of (apply c cart))
  unfolding delete_action delete_all_actions
  apply-Step (adds a) cart v = adds-Step a cart
  apply-Step clears cart v = empties λ s. refl
  apply-Step (removes a) cart v =
      let kept : BatchAction → Bool = λ b. nonzero (locale_compare (stringify b) (stringify a)) in
      takes_out a
        λ s. claimant-filter s kept cart.actions v.distinct ∙ swapped (claimant s cart.actions) kept

  -- Each change, in the cart that the changes before it leave, is a step of the specification, which is
  -- told whether that cart is full.
  abbrev pub Refines : List Primitive → Cart → Type 0
  Refines [] cart = Unit
  Refines (c ∷ cs) cart =
      Step is_same (is_full cart) (plan_of cart) c (plan_of (apply c cart))
      × Refines cs (apply c cart)

  apply-IsValid : (c : Primitive) (cart : Cart) → IsValid cart → IsValid (apply c cart)
  apply-IsValid (adds a) cart v = add_action-IsValid a cart v
  apply-IsValid (removes a) cart v = delete_action-IsValid stringify locale_compare a cart v
  apply-IsValid clears cart v = delete_all_actions-IsValid cart

  -- Whatever is added to a valid cart and removed from it, every change does to what is planned for each
  -- slot what the specification says: an addition is refused exactly by a cart of a hundred actions,
  -- and else claims its slot if that is free, and leaves the plan as it is if the slot is taken or the
  -- action has none; a removal frees the slots whose actions are printed alike, and no others.
  pub changes-Refines : (cs : List Primitive) (cart : Cart) → IsValid cart → Refines cs cart
  changes-Refines [] cart v = tt
  changes-Refines (c ∷ cs) cart v =
      (apply-Step c cart v, changes-Refines cs (apply c cart) (apply-IsValid c cart v))
