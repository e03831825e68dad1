-- ===== src/ServiceLane/Display/Order.antt =====
-- In which order a lane shows releases.
use kuberpult.Prelude.{
  ℕ, ◌≡◌, refl, ◌∙◌, ap, ◌≤◌, ◌<◌, ◌+◌, ◌-◌, true, false, some, List, [], ◌∷◌, ◌++◌, zero, suc, eqb,
  any, length, map, take, drop, All, All-imp, All-append, arith, Bool-cases, inl, inr,
}
use kuberpult.ServiceLane.Display.{
  same_version, last, find_index, slice_end, important_releases, after_oldest,
  get_releases_to_display, with_history,
}
use kuberpult.ServiceLane.Display.Counting.{IsHistory, member_below, find_index-pos, All-below}

abbrev Contains : List ℕ → ℕ → Type 0
Contains xs v = any (eqb v) xs ≡ true

module _ (P : ℕ → Type 0) where
  All-take : (n : ℕ) (xs : List ℕ) → All P xs → All P (take n xs)
  All-take zero xs h = tt
  All-take (suc n) [] h = tt
  All-take (suc n) (x ∷ xs) (p, h) = (p, All-take n xs h)

IsHistory-take : (n : ℕ) (xs : List ℕ) → IsHistory xs → IsHistory (take n xs)
IsHistory-take zero xs s = tt
IsHistory-take (suc n) [] s = tt
IsHistory-take (suc n) (x ∷ xs) (h, s) = (All-take (λ z. z < x) n xs h, IsHistory-take n xs s)

-- Behind a release of the history there are only older ones.
older :
    (o : ℕ) (xs : List ℕ)
    → IsHistory xs
    → Contains xs o
    → IsHistory (drop (find_index (λ v. eqb v o) xs) xs)
      × All (λ z. z < o) (drop (find_index (λ v. eqb v o) xs) xs)
older o [] s m = ground arith
older o (x ∷ xs) (h, s) m = elim (Bool-cases (eqb x o)) [
  | inl e ↦ rw e (s, All-below o x xs e h)
  | inr d ↦
      let later : Contains xs o = ground (arith, d, m) in
      let index = find_index-pos o xs later in
      let found : eqb (find_index (λ v. eqb v o) xs) 0 ≡ false = ground (arith, index) in
      rw d (rw found (older o xs s later))
]

IsHistory-append :
    (o : ℕ) (xs ys : List ℕ)
    → IsHistory xs
    → All (λ v. o ≤ v) xs
    → IsHistory ys
    → All (λ v. v < o) ys
    → IsHistory (xs ++ ys)
IsHistory-append o [] ys s h t k = t
IsHistory-append o (x ∷ xs) ys (p, s) (q, h) t k = (
  All-append (λ v. v < x) xs ys p
      (All-imp (λ v. v < o) (λ v. v < x) (λ v r. omega (arith, q, r)) ys k),
  IsHistory-append o xs ys s h t k,
)

-- The last release of a nonempty history is its oldest.
oldest :
    (P : ℕ → Type 0) (x : ℕ) (xs : List ℕ)
    → IsHistory (x ∷ xs)
    → All P (x ∷ xs)
    → (o : ℕ) × (last (map some (x ∷ xs)) ≡ some (some o)) × All (λ v. o ≤ v) (x ∷ xs) × P o
oldest P x [] s (p, h) = (x, refl, (omega arith, tt), p)
oldest P x (y ∷ ys) ((below, rest), s) (p, h) =
    let (o, e, le, q) = oldest P y ys s h in (o, e, (omega (arith, below, le.0), le), q)

map-append : (xs ys : List ℕ) → map some xs ++ map some ys ≡ map some (xs ++ ys)
map-append [] ys = refl
map-append (x ∷ xs) ys = ap (λ zs. some x ∷ zs) (map-append xs ys)

-- What a lane shows for these important releases.
shown_for :
    (all_releases : List ℕ) (x : ℕ) (xs : List ℕ)
    → IsHistory all_releases
    → IsHistory (x ∷ xs)
    → All (Contains all_releases) (x ∷ xs)
    → (shown : List ℕ) × (with_history (map some (x ∷ xs)) all_releases ≡ map some shown)
      × IsHistory shown
unfolding with_history after_oldest
shown_for all_releases x xs s t h =
    let (o, l, le, m) = oldest (Contains all_releases) x xs t h in
    let start = after_oldest (map some (x ∷ xs)) all_releases in
    let index : start ≡ find_index (λ v. eqb v o) all_releases = rw l refl in
    let (sorted, below) = older o all_releases s m in
    let n = slice_end (length all_releases) (start + 6) (length (map some (x ∷ xs))) - start in
    let tail = drop start all_releases in
    let sorted_tail : IsHistory tail = rw index sorted in
    let below_tail : All (λ z. z < o) tail = rw index below in
    (
      (x ∷ xs) ++ take n tail,
      map-append (x ∷ xs) (take n tail),
      IsHistory-append o (x ∷ xs) (take n tail) t le (IsHistory-take n tail sorted_tail)
          (All-take (λ z. z < o) n tail below_tail),
    )

not_latest :
    (latest : ℕ) (rest deployed : List ℕ)
    → All (λ z. z < latest) rest
    → any (same_version (some latest)) (map some deployed) ≡ false
    → All (Contains (latest ∷ rest)) deployed
    → All (λ v. v < latest) deployed
not_latest latest rest [] b d h = tt
not_latest latest rest (v ∷ vs) b d (p, h) =
    let other : eqb latest v ≡ false = ground (arith, d) in
    let later : Contains rest v = ground (arith, other, p) in
    (member_below v latest rest b later, not_latest latest rest vs b (rw other at d) h)

-- If the releases of the application run from the latest to the oldest, and so do the deployed ones,
-- which are among them, the lane shows releases from the latest to the oldest, none twice.
pub get_releases_to_display-IsHistory :
    (deployed : List ℕ) (latest : ℕ) (rest : List ℕ)
    → IsHistory (latest ∷ rest)
    → IsHistory deployed
    → All (λ v. any (eqb v) (latest ∷ rest) ≡ true) deployed
    → (shown : List ℕ) × (get_releases_to_display deployed (latest ∷ rest) ≡ map some shown)
      × IsHistory shown
unfolding get_releases_to_display important_releases
get_releases_to_display-IsHistory [] latest rest s t h =
    shown_for (latest ∷ rest) latest [] s (tt, tt) (ground arith, tt)
get_releases_to_display-IsHistory (v ∷ vs) latest rest s t h =
    elim (Bool-cases (any (same_version (some latest)) (map some (v ∷ vs)))) [
      | inl b ↦
          let (shown, e, o) = shown_for (latest ∷ rest) v vs s t h in
          let important : important_releases (v ∷ vs) (latest ∷ rest) ≡ map some (v ∷ vs) =
            rw b refl in
          (shown, ap (λ xs. with_history xs (latest ∷ rest)) important ∙ e, o)
      | inr b ↦
          let (shown, e, o) =
            shown_for (latest ∷ rest) latest (v ∷ vs) s (not_latest latest rest (v ∷ vs) s.0 b h, t)
              (ground arith, h) in
          let important : important_releases (v ∷ vs) (latest ∷ rest) ≡ map some (latest ∷ v ∷ vs) =
            rw b refl in
          (shown, ap (λ xs. with_history xs (latest ∷ rest)) important ∙ e, o)
    ]
