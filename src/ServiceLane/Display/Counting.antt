-- ===== src/ServiceLane/Display/Counting.antt =====
-- How many releases a lane shows, and how many the number between two cards counts.
use kuberpult.Prelude.{
  ℕ, ◌≡◌, refl, ◌∙◌, ap, sym, ◌≤◌, ◌||◌, Option, none, if_both, ◌<◌, ◌+◌, ◌-◌, Bool, true, false,
  ◌&&◌, some, List, [], ◌∷◌, zero, suc, eqb, ltb, leb, if◌then◌else◌, any, filter, length, map,
  take, drop, All, arith, Bool-cases, inl, inr, IsSorted, length-append, All-imp,
}
use kuberpult.ServiceLane.Display.{
  number_of_displayed_releases_on_home, same_version, last, find_index, slice_end, slice,
  important_releases, after_oldest, get_releases_to_display, with_history, pos,
  get_number_of_releases_between,
}

-- Releases from the latest to the oldest, each once.
abbrev pub IsHistory : List ℕ → Type 0
IsHistory = IsSorted (λ a b. b < a)

count : (ℕ → Bool) → List ℕ → ℕ
count p xs = length (filter p xs)

module _ (x : ℕ) where
  below_count : (xs : List ℕ) → All (λ y. y < x) xs → length (filter (λ v. leb x v) xs) ≡ 0
  below_count [] h = refl
  below_count (y ∷ xs) (p, h) = ground (arith, below_count xs h)

  below_equal : (xs : List ℕ) → All (λ y. y < x) xs → length (filter (λ v. eqb v x) xs) ≡ 0
  below_equal [] h = refl
  below_equal (y ∷ xs) (p, h) = ground (arith, below_equal xs h)

  below_any : (xs : List ℕ) → All (λ y. y < x) xs → any (eqb x) xs ≡ false
  below_any [] h = refl
  below_any (y ∷ xs) (p, h) = ground (arith, below_any xs h)

pub member_below : (x y : ℕ) (xs : List ℕ) → All (λ z. z < y) xs → any (eqb x) xs ≡ true → x < y
member_below x y [] h m = ground arith
member_below x y (z ∷ xs) (p, h) m = elim (Bool-cases (eqb x z)) [
  | inl e ↦ ground (arith, p)
  | inr d ↦ member_below x y xs h (rw d at m)
]

pub find_index-pos :
    (x : ℕ) (xs : List ℕ) → any (eqb x) xs ≡ true → 0 < find_index (λ v. eqb v x) xs
find_index-pos x [] m = ground arith
find_index-pos x (y ∷ xs) m = ground (arith, find_index-pos x xs)

pub All-below : (x y : ℕ) (xs : List ℕ) → eqb y x ≡ true → All (λ z. z < y) xs → All (λ z. z < x) xs
All-below x y xs e h = All-imp (λ z. z < y) (λ z. z < x) (λ z p. ground (arith, p, e)) xs h

-- Up to a release of the history lie the releases that are not older.
find_index-count :
    (x : ℕ) (xs : List ℕ)
    → IsHistory xs
    → any (eqb x) xs ≡ true
    → find_index (λ v. eqb v x) xs ≡ length (filter (λ v. leb x v) xs)
find_index-count x [] s m = ground arith
find_index-count x (y ∷ xs) (h, s) m = elim (Bool-cases (eqb y x)) [
  | inl e ↦ ground (arith, e, below_count x xs (All-below x y xs e h))
  | inr d ↦
      let later : any (eqb x) xs ≡ true = ground (arith, d, m) in
      ground (
        arith,
        d,
        member_below x y xs h later,
        find_index-pos x xs later,
        find_index-count x xs s later,
      )
]

equal-count :
    (x : ℕ) (xs : List ℕ)
    → IsHistory xs
    → any (eqb x) xs ≡ true
    → length (filter (λ v. eqb v x) xs) ≡ 1
equal-count x [] s m = ground arith
equal-count x (y ∷ xs) (h, s) m = elim (Bool-cases (eqb y x)) [
  | inl e ↦ ground (arith, e, below_equal x xs (All-below x y xs e h))
  | inr d ↦
      let later : any (eqb x) xs ≡ true = ground (arith, d, m) in
      ground (arith, d, equal-count x xs s later)
]

split-count :
    (lo hi : ℕ) (xs : List ℕ)
    → lo < hi
    → length (filter (λ v. leb lo v) xs)
      ≡ length (filter (λ v. leb hi v) xs)
        + (length (filter (λ v. ltb lo v && ltb v hi) xs) + length (filter (λ v. eqb v lo) xs))
split-count lo hi [] less = refl
split-count lo hi (x ∷ xs) less = ground (arith, split-count lo hi xs less)

-- In a history, the number between two of its releases counts the releases that are newer than the
-- one and older than the other.
pub get_number_of_releases_between-count :
    (releases : List ℕ) (higher_version lower_version : ℕ)
    → IsHistory releases
    → any (eqb higher_version) releases ≡ true
    → any (eqb lower_version) releases ≡ true
    → lower_version < higher_version
    → get_number_of_releases_between releases higher_version lower_version
      ≡ pos (length (filter (λ v. ltb lower_version v && ltb v higher_version) releases))
unfolding get_number_of_releases_between
get_number_of_releases_between-count releases hi lo s in_hi in_lo less =
    let n = length (filter (λ v. ltb lo v && ltb v hi) releases) in
    let above = find_index-count hi releases s in_hi in
    let below = find_index-count lo releases s in_lo in
    let split = split-count lo hi releases less in
    let one = equal-count lo releases s in_lo in rw (above, below) (ground (arith, split, one))

length-drop : {A : Type 0} (n : ℕ) (xs : List A) → length (drop n xs) ≡ length xs - n
length-drop zero xs = omega arith
length-drop (suc n) [] = omega arith
length-drop (suc n) (x ∷ xs) = omega (arith, length-drop n xs)

length-take :
    {A : Type 0} (n : ℕ) (xs : List A)
    → length (take n xs) ≡ (if leb n (length xs) then n else length xs)
length-take zero xs = ground arith
length-take (suc n) [] = ground arith
length-take (suc n) (x ∷ xs) = ground (arith, length-take n xs)

length-map : {A B : Type 0} (f : A → B) (xs : List A) → length (map f xs) ≡ length xs
length-map f [] = refl
length-map f (x ∷ xs) = ap suc (length-map f xs)

-- The important releases, and those behind the oldest of them.
abbrev reachable : (deployed all_releases : List ℕ) → ℕ
reachable deployed all_releases =
    let important = important_releases deployed all_releases in
    length important + (length all_releases - after_oldest important all_releases)

length-slice :
    {A : Type 0} (start plus minus : ℕ) (xs : List A)
    → minus ≤ plus
    → length (slice start plus minus xs) ≡ (
        if leb (plus - minus - start) (length xs - start)
        then plus - minus - start
        else length xs - start)
length-slice start plus minus xs h =
    length-take (slice_end (length xs) plus minus - start) (drop start xs)
    ∙ ground (arith, h, length-drop start xs)

length-shown :
    (deployed all_releases : List ℕ)
    → length (important_releases deployed all_releases) ≤ number_of_displayed_releases_on_home
    → length (get_releases_to_display deployed all_releases) ≡ (
        if leb (reachable deployed all_releases) number_of_displayed_releases_on_home
        then reachable deployed all_releases
        else number_of_displayed_releases_on_home)
unfolding get_releases_to_display with_history
length-shown deployed all_releases h =
    let important = important_releases deployed all_releases in
    let start = after_oldest important all_releases in
    let shown = slice start (start + 6) (length important) all_releases in
    length-append important (map some shown)
    ∙ ap (λ n. length important + n)
        (length-map some shown
          ∙ length-slice start (start + 6) (length important) all_releases (omega (arith, h)))
    ∙ ground (arith, h)

-- How many releases are important, and how many could be shown: the deployed releases, the newest one,
-- and every release that is older than the oldest that is deployed.
abbrev pub important : (deployed : List ℕ) (newest : ℕ) → ℕ
important deployed newest =
    if any (eqb newest) deployed then length deployed else length deployed + 1

abbrev pub available : (deployed : List ℕ) (newest oldest : ℕ) (all_releases : List ℕ) → ℕ
available deployed newest oldest all_releases =
    important deployed newest + length (filter (λ v. ltb v oldest) all_releases)

any-same_version :
    (v : ℕ) (xs : List ℕ) → any (same_version (some v)) (map some xs) ≡ any (eqb v) xs
any-same_version v [] = refl
any-same_version v (x ∷ xs) = ap (λ b. eqb v x || b) (any-same_version v xs)

last-map : (xs : List ℕ) (x : ℕ) → last xs ≡ some x → last (map some xs) ≡ some (some x)
last-map [] x e = cc
last-map (y ∷ []) x e = ap some e
last-map (y ∷ z ∷ xs) x e = last-map (z ∷ xs) x e

last-cons :
    (o : Option ℕ) (xs : List ℕ) (x : ℕ) → last xs ≡ some x → last (o ∷ map some xs) ≡ some (some x)
last-cons o [] x e = cc
last-cons o (y ∷ xs) x e = last-map (y ∷ xs) x e

not_older-count :
    (x : ℕ) (xs : List ℕ)
    → length (filter (λ v. leb x v) xs) + length (filter (λ v. ltb v x) xs) ≡ length xs
not_older-count x [] = refl
not_older-count x (y ∷ xs) = ground (arith, not_older-count x xs)

length-important :
    (deployed older : List ℕ) (newest : ℕ)
    → length (important_releases deployed (newest ∷ older)) ≡ important deployed newest
unfolding important_releases
length-important deployed older newest =
    ground (arith, any-same_version newest deployed, length-map some deployed)

last-important :
    (deployed older : List ℕ) (newest oldest : ℕ)
    → last deployed ≡ some oldest
    → last (important_releases deployed (newest ∷ older)) ≡ some (some oldest)
unfolding important_releases
last-important deployed older newest oldest e =
    if_both (λ xs. last xs ≡ some (some oldest))
      (any (same_version (some newest)) (map some deployed)) (map some deployed)
      (some newest ∷ map some deployed) (last-map deployed oldest e)
      (last-cons (some newest) deployed oldest e)

after_oldest-count :
    (xs : List (Option ℕ)) (oldest : ℕ) (all_releases : List ℕ)
    → IsHistory all_releases
    → last xs ≡ some (some oldest)
    → any (eqb oldest) all_releases ≡ true
    → after_oldest xs all_releases ≡ length (filter (λ v. leb oldest v) all_releases)
unfolding after_oldest
after_oldest-count xs oldest all_releases history e present =
    ap
      (λ (o : Option (Option ℕ)). elim o [
        | none ↦ 0
        | some o ↦ find_index (λ v. same_version (some v) o) all_releases
      ])
      e
    ∙ find_index-count oldest all_releases history present

reachable-available :
    (deployed older : List ℕ) (newest oldest : ℕ)
    → IsHistory (newest ∷ older)
    → last deployed ≡ some oldest
    → any (eqb oldest) (newest ∷ older) ≡ true
    → reachable deployed (newest ∷ older) ≡ available deployed newest oldest (newest ∷ older)
reachable-available deployed older newest oldest history e present =
    let all = newest ∷ older in
    let shown = important_releases deployed all in
    let size = length-important deployed older newest in
    let start =
      after_oldest-count shown oldest all history (last-important deployed older newest oldest e)
        present in
    let rest = not_older-count oldest all in omega (arith, size, start, rest)

-- In a history with a newest release, let `oldest` be the last of the releases that are deployed, and
-- one of the history. If the deployed releases, with the newest one, are at most six, a lane has six
-- entries, or fewer if these with the releases older than `oldest` are fewer.
pub length-get_releases_to_display :
    (deployed older : List ℕ) (newest oldest : ℕ)
    → IsHistory (newest ∷ older)
    → last deployed ≡ some oldest
    → any (eqb oldest) (newest ∷ older) ≡ true
    → important deployed newest ≤ 6
    → length (get_releases_to_display deployed (newest ∷ older)) ≡ (
        if leb (available deployed newest oldest (newest ∷ older)) 6
        then available deployed newest oldest (newest ∷ older)
        else 6)
length-get_releases_to_display deployed older newest oldest history e present few =
    rw (sym (reachable-available deployed older newest oldest history e present))
      (length-shown deployed (newest ∷ older) (rw (length-important deployed older newest) few))
