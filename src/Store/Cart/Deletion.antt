-- ===== src/Store/Cart/Deletion.antt =====
-- `deleteAction` against `addAction`.
use kuberpult.Prelude.{
  ◌≡◌, Bool, false, true, String, Ordering, List, [], ◌∷◌, ◌++◌, arith, length, any, filter,
  filter-append, filter_same, append-nil, All, Bool-cases, inl, inr, length-filter-le, false-any,
  any-filter_none, All-imp, All-mem, ◌<◌,
}
use mathlib.Core.List.{Memᴰ}
use kuberpult.Api.{BatchAction}
use kuberpult.Store.Cart.{Cart, add_action, delete_action, nonzero}
use kuberpult.Store.Cart.Slots.{conflicts, conflicts_iff, IsDistinct, Conflicts}
use kuberpult.Store.Cart.Invariant.{add_to, add_action-actions, IsValid}

false_of_not-Conflicts : (a b : BatchAction) → ¬ Conflicts a b → conflicts a b ≡ false
false_of_not-Conflicts a b h = elim (Bool-cases (conflicts a b)) [
  | inl taken ↦ absurd (h ((conflicts_iff a b).0 taken))
  | inr free ↦ free
]

false_of_not-Conflicts_symm : (a b : BatchAction) → ¬ Conflicts b a → conflicts a b ≡ false
false_of_not-Conflicts_symm a b h = false_of_not-Conflicts a b (λ (s, p, q). h (s, q, p))

module _ (stringify : BatchAction → String) (locale_compare : String → String → Ordering)
    (a : BatchAction) where
  -- Whether `deleteAction` of `a` leaves this action in the cart.
  abbrev pub survives : BatchAction → Bool
  survives act = nonzero (locale_compare (stringify act) (stringify a))

  filter-add_to :
      (xs : List BatchAction)
      → survives a ≡ false
      → All (λ act. survives act ≡ true) xs
      → filter survives (add_to a xs) ≡ xs
  filter-add_to xs gone stay =
      ground
        (arith, filter_same survives xs stay, filter-append survives xs (a ∷ []), append-nil xs)

  -- If the text of an action compares equal to itself and to that of no planned action, deleting
  -- the action after `addAction` restores the planned actions, whether it was added, a duplicate or
  -- one too many.
  pub delete_action-add_action :
      (cart : Cart)
      → survives a ≡ false
      → All (λ act. survives act ≡ true) cart.actions
      → (delete_action stringify locale_compare a (add_action a cart)).actions ≡ cart.actions
  unfolding delete_action
  delete_action-add_action cart gone stay =
      rw add_action-actions (filter-add_to cart.actions gone stay)

  slot_is_free :
      (xs : List BatchAction)
      → All (λ b. ¬ Conflicts a b) xs
      → any (conflicts a) (filter survives xs) ≡ false
  slot_is_free xs h = any-filter_none (conflicts a) survives xs (
      false-any (conflicts a) xs (
        All-imp (λ b. ¬ Conflicts a b) (λ b. conflicts a b ≡ false) (false_of_not-Conflicts a) xs
          h))

  -- In a list of distinct actions, deleting one of them frees its slot.
  deletion_frees :
      (xs : List BatchAction)
      → survives a ≡ false
      → IsDistinct xs
      → Memᴰ a xs
      → (any (conflicts a) (filter survives xs) ≡ false) × (length (filter survives xs) < length xs)
  deletion_frees [] gone d m = elim m [ ]
  deletion_frees (x ∷ xs) gone (h, d) (Memᴰ.head p) =
      let lost : survives x ≡ false = rw (← p) gone in
      let none_left = slot_is_free xs (rw (← p) at h) in
      rw lost (none_left, omega (arith, length-filter-le {0} survives xs))
  deletion_frees (x ∷ xs) gone (h, d) (Memᴰ.tail m) =
      let (free, shorter) = deletion_frees xs gone d m in
      let apart = false_of_not-Conflicts_symm a x (All-mem (λ b. ¬ Conflicts x b) m h) in
      elim (Bool-cases (survives x)) [
        | inl stays ↦ rw stays (rw apart free, omega arith)
        | inr lost ↦ rw lost (free, omega arith)
      ]

  -- In a valid cart, deleting a planned action whose text compares equal to itself frees its slot
  -- and makes room: `addAction` then plans the action again, behind all that are left.
  pub add_action-delete_action :
      (cart : Cart)
      → IsValid cart
      → survives a ≡ false
      → Memᴰ a cart.actions
      → let left = delete_action stringify locale_compare a cart in
        (add_action a left).actions ≡ left.actions ++ a ∷ []
  unfolding delete_action
  add_action-delete_action cart v gone m =
      let (free, shorter) = deletion_frees cart.actions gone v.distinct m in
      let room = v.within in rw add_action-actions (rw free (ground arith))
