-- ===== src/View/Results.antt =====
-- Rendering that may throw: one child that throws takes the page down.
use kuberpult.Prelude.{◌≡◌, refl, List, [], ◌∷◌, All}
use kuberpult.Store.Overview.{Result, throws, returns}

module _ {A B : Type 0} where
  abbrev pub and_then : Result A → (A → Result B) → Result B
  and_then (throws message) f = throws message
  and_then (returns a) f = f a

  abbrev pub map_result : (A → B) → Result A → Result B
  map_result f (throws message) = throws message
  map_result f (returns a) = returns (f a)

module _ {A B : Type 0} (f : A → Result B) where
  -- `xs.map((x) => f(x))`, where `f` may throw
  unfoldable pub each : List A → Result (List B)
  each [] = returns []
  each (x ∷ xs) = let rest = each xs in and_then (f x) (λ y. map_result (λ ys. y ∷ ys) rest)

abbrev pub Returns : {A : Type 0} → Result A → Type 0
Returns {A} r = (a : A) × (r ≡ returns a)

module _ {A B : Type 0} where
  pub Returns-and_then :
      (r : Result A) (f : A → Result B)
      → Returns r
      → ((a : A) → r ≡ returns a → Returns (f a))
      → Returns (and_then r f)
  Returns-and_then (returns a) f h k = k a refl
  Returns-and_then (throws message) f (a, e) k = cc

  pub Returns-map_result : (g : A → B) (r : Result A) → Returns r → Returns (map_result g r)
  Returns-map_result g (returns a) h = (g a, refl)
  Returns-map_result g (throws message) (a, e) = cc

module _ {A B : Type 0} (f : A → Result B) where
  pub Returns-each : (xs : List A) → All (λ x. Returns (f x)) xs → Returns (each f xs)
  unfolding each
  Returns-each [] h = ([], refl)
  Returns-each (x ∷ xs) (h, hs) =
      Returns-and_then (f x) (λ y. map_result (λ ys. y ∷ ys) (each f xs)) h
        (λ y e. Returns-map_result (λ ys. y ∷ ys) (each f xs) (Returns-each xs hs))
