-- ===== src/ServiceLane/Display/Members.antt =====
-- Which versions a lane shows: deployed ones, and others of the history.
use kuberpult.Prelude.{
  ℕ, ◌≡◌, refl, sym, ◌+◌, ◌-◌, zero, suc, Option, some, List, [], ◌∷◌, ◌++◌, any, map, take, drop,
  length, All, All-append, Bool-cases, inl, inr,
}
use mathlib.Core.List.{map-append}
use kuberpult.Store.Overview.{}
use kuberpult.ReleaseCard.Shown.{}
use kuberpult.ServiceLane.Display.{
  ℤ, slice_end, important_releases, with_history, after_oldest, get_releases_to_display,
  same_version,
}
use kuberpult.ServiceLane.View.{all_present, zip}

-- The versions that a lane shows all have a property, and none is `undefined`.
abbrev pub AllShown : (ℕ → Type 0) → List (Option ℕ) → Type 0
AllShown P xs = (vs : List ℕ) × (xs ≡ map some vs) × All P vs

module _ (P : ℕ → Type 0) where
  All-take : (n : ℕ) (xs : List ℕ) → All P xs → All P (take n xs)
  All-take zero xs h = tt
  All-take (suc n) [] h = tt
  All-take (suc n) (x ∷ xs) (p, h) = (p, All-take n xs h)

  All-drop : (n : ℕ) (xs : List ℕ) → All P xs → All P (drop n xs)
  All-drop zero xs h = h
  All-drop (suc n) [] h = tt
  All-drop (suc n) (x ∷ xs) (p, h) = All-drop n xs h

  AllShown-history :
      (all_releases vs : List ℕ)
      → All P all_releases
      → All P vs
      → AllShown P (with_history (map some vs) all_releases)
  unfolding with_history
  AllShown-history all_releases vs h k =
      let start = after_oldest (map some vs) all_releases in
      let n = slice_end (length all_releases) (start + 6) (length (map some vs)) - start in
      (
        vs ++ take n (drop start all_releases),
        sym (map-append some vs (take n (drop start all_releases))),
        All-append P vs _ k (All-take n _ (All-drop start all_releases h)),
      )

  -- If there is a release, then what the lane shows are deployed releases and others of the history.
  pub displayed-AllShown :
      (deployed : List ℕ) (latest : ℕ) (rest : List ℕ)
      → All P (latest ∷ rest)
      → All P deployed
      → AllShown P (get_releases_to_display deployed (latest ∷ rest))
  unfolding get_releases_to_display important_releases
  displayed-AllShown deployed latest rest h k =
      elim (Bool-cases (any (same_version (some latest)) (map some deployed))) [
        | inl b ↦
            rw (get_releases_to_display, important_releases, b)
              (AllShown-history (latest ∷ rest) deployed h k)
        | inr b ↦
            rw (get_releases_to_display, important_releases, b)
              (AllShown-history (latest ∷ rest) (latest ∷ deployed) h (h.0, k))
      ]

  pub all_present-map : (vs : List ℕ) → all_present (map some vs) ≡ some vs
  all_present-map [] = refl
  all_present-map (v ∷ vs) = rw (all_present-map vs) refl

  pub All-zip : (vs : List ℕ) (ds : List ℤ) → All P vs → All (λ (x : ℕ × ℤ). P (x.0)) (zip vs ds)
  All-zip [] ds h = tt
  All-zip (v ∷ vs) [] h = tt
  All-zip (v ∷ vs) (d ∷ ds) (p, h) = (p, All-zip vs ds h)
