-- ===== src/Store/Cart/Invariant.antt =====
-- What holds of the planned actions between two events, whatever the page does with them.
use kuberpult.Prelude.{
  ◌+◌, ◌≤◌, ◌<◌, ◌≡◌, Bool, true, false, String, Ordering, List, [], ◌∷◌, ◌++◌, arith, length,
  length-append, length-filter-le, any, any-false, filter, fold, ltb, if◌then◌else◌, All, All-imp,
  All-append, All-filter, Bool-cases, inl, inr,
}
use kuberpult.Api.{BatchAction}
use kuberpult.Store.Cart.{
  Cart, max_batch_actions, add_action, append_action, update_actions, delete_action,
  delete_all_actions, nonzero,
}
use kuberpult.Store.Cart.Slots.{Conflicts, IsDistinct, conflicts, conflicts_iff, is_duplicate-eq}

-- At most a hundred actions are planned, and no two of them claim one slot.
pub record IsValid (cart : Cart) : Type 0 where
  pub within : length cart.actions ≤ max_batch_actions
  pub distinct : IsDistinct cart.actions

pub not-Conflicts_of_false : (a b : BatchAction) → conflicts a b ≡ false → ¬ Conflicts b a
not-Conflicts_of_false a b e (s, p, q) = let taken = (conflicts_iff a b).1 (s, q, p) in cc

IsDistinct-concat :
    (xs : List BatchAction) (a : BatchAction)
    → IsDistinct xs
    → All (λ x. ¬ Conflicts x a) xs
    → IsDistinct (xs ++ a ∷ [])
IsDistinct-concat [] a d h = (tt, tt)
IsDistinct-concat (x ∷ xs) a (p, d) (q, h) =
    (All-append (λ b. ¬ Conflicts x b) xs (a ∷ []) p (q, tt), IsDistinct-concat xs a d h)

pub IsDistinct-filter :
    (p : BatchAction → Bool) (xs : List BatchAction) → IsDistinct xs → IsDistinct (filter p xs)
IsDistinct-filter p [] d = tt
IsDistinct-filter p (x ∷ xs) (h, d) =
    ground (arith, All-filter (λ b. ¬ Conflicts x b) p xs h, IsDistinct-filter p xs d)

-- `addAction` as a function of the list alone, in terms of conflicts.
abbrev pub add_to : BatchAction → List BatchAction → List BatchAction
add_to a xs =
    if ltb max_batch_actions (length xs + 1)
    then xs
    else if any (conflicts a) xs
    then xs
    else xs ++ a ∷ []

pub add_action-actions :
    (a : BatchAction) (cart : Cart) → (add_action a cart).actions ≡ add_to a cart.actions
unfolding add_action
add_action-actions a cart = ground (arith, is_duplicate-eq a.action cart.actions)

free_to_add :
    (a : BatchAction) (xs : List BatchAction)
    → any (conflicts a) xs ≡ false
    → All (λ x. ¬ Conflicts x a) xs
free_to_add a xs e =
    All-imp (λ x. conflicts a x ≡ false) (λ x. ¬ Conflicts x a) (not-Conflicts_of_false a) xs
      (any-false (conflicts a) xs e)

-- An action whose slot is taken changes nothing, not even the side bar.
pub add_action_duplicate :
    (a : BatchAction) (cart : Cart)
    → length cart.actions < max_batch_actions
    → any (conflicts a) cart.actions ≡ true
    → add_action a cart ≡ cart
unfolding add_action
add_action_duplicate a cart room taken = ground (arith, is_duplicate-eq a.action cart.actions)

module _ (a : BatchAction) (xs : List BatchAction) where
  length-add_to-le : length xs ≤ max_batch_actions → length (add_to a xs) ≤ max_batch_actions
  length-add_to-le h = ground (arith, length-append xs (a ∷ []))

  IsDistinct-add_to : IsDistinct xs → IsDistinct (add_to a xs)
  IsDistinct-add_to d = elim (Bool-cases (any (conflicts a) xs)) [
    | inl taken ↦ ground arith
    | inr free ↦ ground (arith, IsDistinct-concat xs a d (free_to_add a xs free))
  ]

pub add_action-IsValid :
    (a : BatchAction) (cart : Cart) → IsValid cart → IsValid (add_action a cart)
add_action-IsValid a cart v = record {
  within = rw add_action-actions (length-add_to-le a cart.actions v.within);
  distinct = rw add_action-actions (IsDistinct-add_to a cart.actions v.distinct);
}

pub append_action-IsValid :
    (actions : List BatchAction) (cart : Cart) → IsValid cart → IsValid (append_action actions cart)
unfolding append_action
append_action-IsValid [] cart v = v
append_action-IsValid (a ∷ actions) cart v =
    append_action-IsValid actions (add_action a cart) (add_action-IsValid a cart v)

pub delete_all_actions-IsValid : (cart : Cart) → IsValid (delete_all_actions cart)
unfolding delete_all_actions
delete_all_actions-IsValid cart = record { within = omega arith; distinct = tt }

pub update_actions-IsValid :
    (actions : List BatchAction) (cart : Cart) → IsValid (update_actions actions cart)
unfolding update_actions
update_actions-IsValid actions cart =
    append_action-IsValid actions (delete_all_actions cart) (delete_all_actions-IsValid cart)

module _ (stringify : BatchAction → String) (locale_compare : String → String → Ordering) where
  pub delete_action-IsValid :
      (a : BatchAction) (cart : Cart)
      → IsValid cart
      → IsValid (delete_action stringify locale_compare a cart)
  unfolding delete_action
  delete_action-IsValid a cart v = record {
    within = omega (arith, length-filter-le {0} keeps cart.actions, v.within);
    distinct = IsDistinct-filter keeps cart.actions v.distinct;
  }
    where
      keeps : BatchAction → Bool
      keeps act = nonzero (locale_compare (stringify act) (stringify a))

  -- The calls by which the page changes the planned actions.
  pub data Change : Type 0 where
    adds : BatchAction → Change
    appends : List BatchAction → Change
    updates : List BatchAction → Change
    deletes : BatchAction → Change
    deletes_all : Change

  abbrev pub change : Change → Cart → Cart
  change (adds a) = add_action a
  change (appends l) = append_action l
  change (updates l) = update_actions l
  change (deletes a) = delete_action stringify locale_compare a
  change deletes_all = delete_all_actions

  change-IsValid : (c : Change) (cart : Cart) → IsValid cart → IsValid (change c cart)
  change-IsValid (adds a) cart v = add_action-IsValid a cart v
  change-IsValid (appends l) cart v = append_action-IsValid l cart v
  change-IsValid (updates l) cart v = update_actions-IsValid l cart
  change-IsValid (deletes a) cart v = delete_action-IsValid a cart v
  change-IsValid deletes_all cart v = delete_all_actions-IsValid cart

  -- After any sequence of additions, replacements and deletions that starts from a valid cart, at
  -- most a hundred actions are planned and no two of them claim one slot.
  pub changes-IsValid :
      (changes : List Change) (cart : Cart) → IsValid cart → IsValid (fold change changes cart)
  changes-IsValid [] cart v = v
  changes-IsValid (c ∷ changes) cart v =
      changes-IsValid changes (change c cart) (change-IsValid c cart v)
