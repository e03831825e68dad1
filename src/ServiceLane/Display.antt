-- ===== src/ServiceLane/Display.antt =====
-- ServiceLane.tsx: which releases a lane shows, and how many lie hidden between two of them.
pub mod Counting
pub mod Members
pub mod Order
use kuberpult.Prelude.{
  ℕ, ◌+◌, ◌-◌, Bool, true, false, Option, none, some, List, [], ◌∷◌, ◌++◌, zero, suc, eqb, ltb, leb,
  if◌then◌else◌, any, length, map, take, drop, get_elem?,
}

abbrev pub number_of_displayed_releases_on_home : ℕ
number_of_displayed_releases_on_home = 6

-- `===` on versions, of which one may be `undefined`
abbrev pub same_version : Option ℕ → Option ℕ → Bool
same_version none none = true
same_version (some a) (some b) = eqb a b
same_version _ _ = false

-- `xs[0]` and `xs.slice(-1)[0]`
abbrev pub first {ℓ} : {A : Type ℓ} → List A → Option A
first [] = none
first (x ∷ xs) = some x

abbrev pub last {ℓ} : {A : Type ℓ} → List A → Option A
last [] = none
last (x ∷ []) = some x
last (x ∷ y ∷ xs) = last (y ∷ xs)

-- `xs.findIndex(p) + 1`: 0 if there is none
abbrev pub find_index {ℓ} : {A : Type ℓ} → (A → Bool) → List A → ℕ
find_index p [] = 0
find_index p (x ∷ xs) =
    let rest = find_index p xs in if p x then 1 else if eqb rest 0 then 0 else suc rest

-- `xs.slice(start, plus - minus)`: a negative end counts from the end of the list.
abbrev pub slice_end : (len plus minus : ℕ) → ℕ
slice_end len plus minus = if leb minus plus then plus - minus else len - (minus - plus)

abbrev pub slice {ℓ} : {A : Type ℓ} → (start plus minus : ℕ) → List A → List A
slice start plus minus xs = take (slice_end (length xs) plus minus - start) (drop start xs)

-- `importantReleases`
unfoldable pub important_releases : (deployed all_releases : List ℕ) → List (Option ℕ)
important_releases deployed all_releases =
    if any (same_version (first all_releases)) (map some deployed)
    then map some deployed
    else first all_releases ∷ map some deployed

-- `oldestImportantReleaseIndex + 1`, for the important releases
unfoldable pub after_oldest : List (Option ℕ) → List ℕ → ℕ
after_oldest important all_releases = elim (last important) [
  | none ↦ 0
  | some o ↦ find_index (λ v. same_version (some v) o) all_releases
]

-- The important releases, and a slice of the history behind the oldest of them.
unfoldable pub with_history : List (Option ℕ) → List ℕ → List (Option ℕ)
unfolding after_oldest
with_history important all_releases =
    let start = after_oldest important all_releases in
    important
    ++ map some
        (slice start (start + number_of_displayed_releases_on_home) (length important) all_releases)

-- `getReleasesToDisplay`; an entry is `undefined` if there is no release at all.
unfoldable pub get_releases_to_display : (deployed all_releases : List ℕ) → List (Option ℕ)
unfolding important_releases with_history
get_releases_to_display deployed all_releases =
    with_history (important_releases deployed all_releases) all_releases

-- The numbers of JavaScript that are whole.
pub data ℤ : Type 0 where
  pos negsuc : ℕ → ℤ

abbrev pub difference : ℕ → ℕ → ℤ
difference a b = if leb b a then pos (a - b) else negsuc (b - a - 1)

abbrev pub plus_one : ℤ → ℤ
plus_one (pos n) = pos (suc n)
plus_one (negsuc zero) = pos 0
plus_one (negsuc (suc n)) = negsuc n

-- `getNumberOfReleasesBetween`
unfoldable pub get_number_of_releases_between : List ℕ → (higher_version lower_version : ℕ) → ℤ
get_number_of_releases_between releases higher_version lower_version =
    difference (find_index (λ v. eqb v lower_version) releases)
      (find_index (λ v. eqb v higher_version) releases + 1)

-- `diff` of each card of `releases_lane`, for cards that are releases
unfoldable pub diffs : (all_releases cards : List ℕ) → List ℤ
unfolding get_number_of_releases_between
diffs all_releases [] = []
diffs all_releases (rel ∷ []) =
    elim (last all_releases) [
      | none ↦ plus_one (difference 0 (find_index (λ v. eqb v rel) all_releases + 1))
      | some oldest ↦ plus_one (get_number_of_releases_between all_releases rel oldest)
    ]
    ∷ []
diffs all_releases (rel ∷ next ∷ cards) =
    get_number_of_releases_between all_releases rel next ∷ diffs all_releases (next ∷ cards)
