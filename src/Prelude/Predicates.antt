-- ===== src/Prelude/Predicates.antt =====
-- Predicates on lists by recursion, which the tactics read as tuples.
use mathlib.Core.Path.{◌≡◌, refl, sym, ◌∙◌}
use mathlib.Core.Bool.{Bool, true, false, false≢true}
use mathlib.Core.List.{Memᴰ, List, [], ◌∷◌, ◌++◌, map}
use native.Mathlib.Omega.{arith}
use mathlib.Core.Option.{some}
use mathlib.Core.Logic.{inl, inr}
use kuberpult.Prelude.Tests.{Bool-cases, is_some}
use kuberpult.Prelude.Lists.{filter, any, find, flat_map}

module _ {ℓ κ} {A : Type ℓ} where
  abbrev pub All : (A → Type κ) → List A → Type κ
  All P [] = Unit
  All P (x ∷ xs) = P x × All P xs

module _ {ℓ κ} {A : Type ℓ} (P : A → Type κ) where
  pub All-append : (xs ys : List A) → All P xs → All P ys → All P (xs ++ ys)
  All-append [] ys h k = k
  All-append (x ∷ xs) ys (p, h) k = (p, All-append xs ys h k)

  pub All-append_right : (xs ys : List A) → All P (xs ++ ys) → All P ys
  All-append_right [] ys h = h
  All-append_right (x ∷ xs) ys (_, h) = All-append_right xs ys h

  pub All-append_left : (xs ys : List A) → All P (xs ++ ys) → All P xs
  All-append_left [] ys h = tt
  All-append_left (x ∷ xs) ys (p, h) = (p, All-append_left xs ys h)

  pub All-filter : (q : A → Bool) (xs : List A) → All P xs → All P (filter q xs)
  All-filter q [] h = tt
  All-filter q (x ∷ xs) h = ground (arith, All-filter q xs)

  pub All-mem : {a : A} {xs : List A} → Memᴰ a xs → All P xs → P a
  All-mem (Memᴰ.head e) (p, h) = rw e p
  All-mem (Memᴰ.tail m) (p, h) = All-mem m h

  pub All-every : ((x : A) → P x) → (xs : List A) → All P xs
  All-every h [] = tt
  All-every h (x ∷ xs) = (h x, All-every h xs)

  pub All-of_mem : (xs : List A) → ((x : A) → Memᴰ x xs → P x) → All P xs
  All-of_mem [] h = tt
  All-of_mem (x ∷ xs) h = (h x (Memᴰ.head refl), All-of_mem xs (λ y m. h y (Memᴰ.tail m)))

module _ {ℓ κ μ} {A : Type ℓ} (P : A → Type κ) (Q : A → Type μ) where
  pub All-imp : ((x : A) → P x → Q x) → (xs : List A) → All P xs → All Q xs
  All-imp f [] h = tt
  All-imp f (x ∷ xs) (p, h) = (f x p, All-imp f xs h)

module _ {ℓ κ μ ν} {A : Type ℓ} (P : A → Type κ) (Q : A → Type μ) (R : A → Type ν) where
  pub All-imp2 : ((x : A) → P x → Q x → R x) → (xs : List A) → All P xs → All Q xs → All R xs
  All-imp2 f [] h k = tt
  All-imp2 f (x ∷ xs) (p, h) (q, k) = (f x p q, All-imp2 f xs h k)

module _ {ℓ} {A : Type ℓ} where
  -- A test that finds nothing is false at every element.
  pub any-false : (p : A → Bool) (xs : List A) → any p xs ≡ false → All (λ x. p x ≡ false) xs
  any-false p [] h = tt
  any-false p (x ∷ xs) h = ground (arith, any-false p xs)

  pub false-any : (p : A → Bool) (xs : List A) → All (λ x. p x ≡ false) xs → any p xs ≡ false
  false-any p [] h = refl
  false-any p (x ∷ xs) h = ground (arith, false-any p xs)

  pub filter-All : (p : A → Bool) (xs : List A) → All (λ x. p x ≡ true) (filter p xs)
  filter-All p [] = tt
  filter-All p (x ∷ xs) = ground (arith, filter-All p xs)

  pub filter_congr :
      (p q : A → Bool) (xs : List A) → All (λ x. p x ≡ q x) xs → filter p xs ≡ filter q xs
  filter_congr p q [] h = refl
  filter_congr p q (x ∷ xs) (e, h) = ground (arith, filter_congr p q xs h)

  pub filter_same : (p : A → Bool) (xs : List A) → All (λ x. p x ≡ true) xs → filter p xs ≡ xs
  filter_same p [] h = refl
  filter_same p (x ∷ xs) h = ground (arith, filter_same p xs)

module _ {ℓ κ μ} {A : Type ℓ} {B : Type κ} (P : B → Type μ) where
  pub All-map : (f : A → B) (xs : List A) → All (λ x. P (f x)) xs → All P (map f xs)
  All-map f [] h = tt
  All-map f (x ∷ xs) (p, h) = (p, All-map f xs h)

  pub All-of_map : (f : A → B) (xs : List A) → All P (map f xs) → All (λ x. P (f x)) xs
  All-of_map f [] h = tt
  All-of_map f (x ∷ xs) (p, h) = (p, All-of_map f xs h)

  pub All-flat_map :
      (f : A → List B) (xs : List A) → ((x : A) → All P (f x)) → All P (flat_map f xs)
  All-flat_map f [] h = tt
  All-flat_map f (x ∷ xs) h = All-append P (f x) (flat_map f xs) (h x) (All-flat_map f xs h)

  pub All-of_flat_map :
      (f : A → List B) (xs : List A) → All P (flat_map f xs) → All (λ x. All P (f x)) xs
  All-of_flat_map f [] h = tt
  All-of_flat_map f (x ∷ xs) h = (
    All-append_left P (f x) (flat_map f xs) h,
    All-of_flat_map f xs (All-append_right P (f x) (flat_map f xs) h),
  )

module _ {ℓ} {A : Type ℓ} (p : A → Bool) where
  pub find-some : (xs : List A) {x : A} → find p xs ≡ some x → p x ≡ true
  find-some [] e = cc
  find-some (y ∷ xs) {x} e = ground (arith, find-some xs {x = x})

  pub find_of_mem : {x : A} (xs : List A) → Memᴰ x xs → p x ≡ true → (y : A) × (find p xs ≡ some y)
  find_of_mem [] m h = elim m [ ]
  find_of_mem (y ∷ xs) (Memᴰ.head e) h = (y, rw (rw e at h) refl)
  find_of_mem (y ∷ xs) (Memᴰ.tail m) h = elim (Bool-cases (p y)) [
    | inl here ↦ (y, rw here)
    | inr skip ↦ rw skip (find_of_mem xs m h)
  ]

  pub All-filter_mem {κ} :
      (P : A → Type κ) (xs : List A) → All P (filter p xs) → All (λ x. p x ≡ true → P x) xs
  All-filter_mem P [] h = tt
  All-filter_mem P (x ∷ xs) h = elim (Bool-cases (p x)) [
    | inl kept ↦
        let (here, later) : P x × All P (filter p xs) = rw kept at h in
        (λ _. here, All-filter_mem P xs later)
    | inr dropped ↦
        (λ e. absurd (false≢true (sym dropped ∙ e)), All-filter_mem P xs (rw dropped at h))
  ]

  pub filter_none : (xs : List A) → All (λ x. p x ≡ false) xs → filter p xs ≡ []
  filter_none [] h = refl
  filter_none (x ∷ xs) (e, h) = ground (arith, filter_none xs h)

  pub any_of_mem : {x : A} (xs : List A) → Memᴰ x xs → p x ≡ true → any p xs ≡ true
  any_of_mem [] m h = elim m [ ]
  any_of_mem (y ∷ xs) (Memᴰ.head e) h = rw (rw e at h) refl
  any_of_mem (y ∷ xs) (Memᴰ.tail m) h = ground (arith, any_of_mem xs m h)

  pub is_some-find : (xs : List A) → is_some (find p xs) ≡ any p xs
  is_some-find [] = refl
  is_some-find (x ∷ xs) = ground (arith, is_some-find xs)
