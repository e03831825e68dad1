-- ===== src/Prelude/Sorting.antt =====
-- `Array.prototype.sort` with a comparison, and `[...new Set(xs)]`. The language prescribes a stable
-- sort for a consistent comparison, and leaves the order open for any other; this sort inserts one
-- element after another, behind those that it does not come before.
use Prim.Native.Nat.{Ordering}
use mathlib.Core.Path.{◌≡◌}
use mathlib.Core.Bool.{Bool, true, false}
use mathlib.Core.List.{List, [], ◌∷◌, ◌++◌, Perm, perm_middle, append-nil}
use mathlib.Core.List.Perm
use mathlib.Core.Logic.{inl, inr}
use kuberpult.Prelude.Tests.{if◌then◌else◌, Bool-cases}
use kuberpult.Prelude.Lists.{any}
use kuberpult.Prelude.Predicates.{All, All-imp}

-- A negative result: the first argument comes before the second.
abbrev pub is_before : Ordering → Bool
is_before Ordering.lt = true
is_before _ = false

module _ {ℓ} {A : Type ℓ} (cmp : A → A → Ordering) where
  unfoldable pub insert_by : A → List A → List A
  insert_by x [] = x ∷ []
  insert_by x (y ∷ ys) = if is_before (cmp x y) then x ∷ y ∷ ys else y ∷ insert_by x ys

  unfoldable pub sort_onto : List A → List A → List A
  unfolding insert_by
  sort_onto sorted [] = sorted
  sort_onto sorted (x ∷ xs) = sort_onto (insert_by x sorted) xs

  unfoldable pub sort_by : List A → List A
  unfolding sort_onto
  sort_by = sort_onto []

  insert_by-perm : (x : A) (ys : List A) → Perm (insert_by x ys) (x ∷ ys)
  unfolding insert_by
  insert_by-perm x [] = Perm.rfl
  insert_by-perm x (y ∷ ys) = elim (Bool-cases (is_before (cmp x y))) [
    | inl before ↦ rw before Perm.rfl
    | inr after ↦ rw after (Perm.trans (Perm.cons y (insert_by-perm x ys)) (Perm.swap x y ys))
  ]

  sort_onto-perm : (sorted xs : List A) → Perm (sort_onto sorted xs) (sorted ++ xs)
  unfolding sort_onto
  sort_onto-perm sorted [] = rw append-nil Perm.rfl
  sort_onto-perm sorted (x ∷ xs) = Perm.trans (sort_onto-perm (insert_by x sorted) xs) (
      Perm.trans (Perm.append_right xs (insert_by-perm x sorted))
        (Perm.symm (perm_middle sorted xs)))

  -- Sorting loses nothing, and makes nothing up.
  pub sort_by-perm : (xs : List A) → Perm (sort_by xs) xs
  unfolding sort_by
  sort_by-perm xs = sort_onto-perm [] xs

module _ {ℓ κ} {A : Type ℓ} (Le : A → A → Type κ) where
  -- Each element is related to all that follow it.
  abbrev pub IsSorted : List A → Type (ℓ ⊔ κ)
  IsSorted [] = Unit
  IsSorted (x ∷ xs) = All (Le x) xs × IsSorted xs

module _ {ℓ κ} {A : Type ℓ} (cmp : A → A → Ordering) (P : A → Type κ) where
  insert_by-All : (x : A) (ys : List A) → P x → All P ys → All P (insert_by cmp x ys)
  unfolding insert_by
  insert_by-All x [] p h = (p, tt)
  insert_by-All x (y ∷ ys) p (q, h) = elim (Bool-cases (is_before (cmp x y))) [
    | inl b ↦ rw b (p, (q, h))
    | inr b ↦ rw b (q, insert_by-All x ys p h)
  ]

  sort_onto-All : (sorted xs : List A) → All P sorted → All P xs → All P (sort_onto cmp sorted xs)
  unfolding sort_onto
  sort_onto-All sorted [] k h = k
  sort_onto-All sorted (x ∷ xs) k (p, h) =
      sort_onto-All (insert_by cmp x sorted) xs (insert_by-All x sorted p k) h

  pub sort_by-All : (xs : List A) → All P xs → All P (sort_by cmp xs)
  unfolding sort_by
  sort_by-All xs h = sort_onto-All [] xs tt h

  All-of_insert_by : (x : A) (ys : List A) → All P (insert_by cmp x ys) → P x × All P ys
  unfolding insert_by
  All-of_insert_by x [] (p, h) = (p, tt)
  All-of_insert_by x (y ∷ ys) h = elim (Bool-cases (is_before (cmp x y))) [
    | inl b ↦ rw b at h
    | inr b ↦
        let (q, k) : P y × All P (insert_by cmp x ys) = rw b at h in
        let (p, l) = All-of_insert_by x ys k in (p, (q, l))
  ]

  All-of_sort_onto :
      (sorted xs : List A) → All P (sort_onto cmp sorted xs) → All P sorted × All P xs
  unfolding sort_onto
  All-of_sort_onto sorted [] h = (h, tt)
  All-of_sort_onto sorted (x ∷ xs) h =
      let (k, l) = All-of_sort_onto (insert_by cmp x sorted) xs h in
      let (p, q) = All-of_insert_by x sorted k in (q, (p, l))

  pub All-of_sort_by : (xs : List A) → All P (sort_by cmp xs) → All P xs
  unfolding sort_by
  All-of_sort_by xs h = (All-of_sort_onto [] xs h).1

-- A comparison that respects a transitive relation, on the elements where `P` holds.
module _ {ℓ κ} {A : Type ℓ} (cmp : A → A → Ordering) (P : A → Type κ) (Le : A → A → Type κ)
    (before : (x y : A) → P x → P y → is_before (cmp x y) ≡ true → Le x y)
    (after : (x y : A) → P x → P y → is_before (cmp x y) ≡ false → Le y x)
    (trans : (x y z : A) → Le x y → Le y z → Le x z) where
  insert_by-IsSorted :
      (x : A) (ys : List A) → P x → All P ys → IsSorted Le ys → IsSorted Le (insert_by cmp x ys)
  unfolding insert_by
  insert_by-IsSorted x [] p q s = (tt, tt)
  insert_by-IsSorted x (y ∷ ys) p (q, qs) (h, s) = elim (Bool-cases (is_before (cmp x y))) [
    | inl b ↦
        let le = before x y p q b in
        rw b ((le, All-imp (Le y) (Le x) (λ z. trans x y z le) ys h), (h, s))
    | inr b ↦
        rw b (insert_by-All cmp (Le y) x ys (after x y p q b) h, insert_by-IsSorted x ys p qs s)
  ]

  sort_onto-IsSorted :
      (sorted xs : List A)
      → All P sorted
      → All P xs
      → IsSorted Le sorted
      → IsSorted Le (sort_onto cmp sorted xs)
  unfolding sort_onto
  sort_onto-IsSorted sorted [] k h s = s
  sort_onto-IsSorted sorted (x ∷ xs) k (p, h) s =
      sort_onto-IsSorted (insert_by cmp x sorted) xs (insert_by-All cmp P x sorted p k) h
        (insert_by-IsSorted x sorted p k s)

  pub sort_by-IsSorted : (xs : List A) → All P xs → IsSorted Le (sort_by cmp xs)
  unfolding sort_by
  sort_by-IsSorted xs h = sort_onto-IsSorted [] xs tt h tt

module _ {ℓ} {A : Type ℓ} (same : A → A → Bool) where
  unfoldable pub unique_onto : List A → List A → List A
  unique_onto seen [] = []
  unique_onto seen (x ∷ xs) =
      let skip = unique_onto seen xs in
      let keep = x ∷ unique_onto (x ∷ seen) xs in if any (same x) seen then skip else keep

  -- The members of a `Set`, in the order in which each came first.
  unfoldable pub unique : List A → List A
  unfolding unique_onto
  unique = unique_onto []
