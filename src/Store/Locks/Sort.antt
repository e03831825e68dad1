-- ===== src/Store/Locks/Sort.antt =====
-- `sortLocks`: the values of two rows are compared in the order of their keys.
use Prim.Native.String.{compare as compare_text}
use mathlib.Core.List.{Perm}
use package.text.Mathlib.Text.{is_lt}
use kuberpult.Prelude.{
  ℕ, ◌≤◌, ◌≡◌, Bool, true, false, String, Option, none, some, List, [], ◌∷◌, ◌==◌, arith, ltb,
  if◌then◌else◌, All, Ordering, sort_by, sort_by-IsSorted, sort_by-perm, IsSorted, is_before,
  get_or,
}
use kuberpult.Store.Locks.{DisplayLock}

pub data Sorting : Type 0 where
  oldest_to_newest newest_to_oldest : Sorting

-- A member of `Object.values` of a row.
pub data Value : Type 0 where
  undefined : Value
  date : ℕ → Value
  text : String → Value

abbrev date_value : Option ℕ → Value
date_value none = undefined
date_value (some d) = date d

abbrev text_value : Option String → Value
text_value none = undefined
text_value (some s) = text s

-- `<`: a date is compared by its time and a text by its characters; `undefined` is neither less nor
-- greater. JavaScript compares UTF-16 units, which agrees with code points below U+D800.
abbrev less : Value → Value → Bool
less (date a) (date b) = ltb a b
less (text a) (text b) = is_lt (compare_text a b)
less _ _ = false

abbrev is_date : Value → Bool
is_date (date _) = true
is_date _ = false

-- `===`: two dates are two objects.
abbrev strictly_equal : Value → Value → Bool
strictly_equal undefined undefined = true
strictly_equal (text a) (text b) = a == b
strictly_equal _ _ = false

-- `sortMethod` and its negation
abbrev sort_method : Sorting → Ordering
sort_method newest_to_oldest = Ordering.lt
sort_method oldest_to_newest = Ordering.gt

abbrev negate : Ordering → Ordering
negate Ordering.lt = Ordering.gt
negate Ordering.eq = Ordering.eq
negate Ordering.gt = Ordering.lt

abbrev last_value : List Value → Value
last_value [] = undefined
last_value (v ∷ []) = v
last_value (v ∷ w ∷ vs) = last_value (w ∷ vs)

-- The `for` loop of the comparison; `ends_equal` is the test on the last values. Both rows have as
-- many values.
compare_values : Sorting → Bool → List Value → List Value → Ordering
compare_values sorting ends_equal (a ∷ xs) (b ∷ ys) =
    let later = compare_values sorting ends_equal xs ys in
    if less a b
    then (if is_date a then negate (sort_method sorting) else sort_method sorting)
    else if less b a
    then (if is_date a then sort_method sorting else negate (sort_method sorting))
    else if ends_equal
    then Ordering.eq
    else later
compare_values sorting ends_equal _ _ = Ordering.eq

-- The values of the rows of the locks page, of `useFilteredApplicationLocks`, and of the page's
-- environment locks, in the order of the keys of their object literals.
abbrev pub application_row_values : DisplayLock → List Value
application_row_values l =
    date_value l.date
    ∷ text l.environment
    ∷ text_value l.application
    ∷ text l.lock_id
    ∷ text l.message
    ∷ text_value l.author_name
    ∷ text_value l.author_email
    ∷ []

abbrev pub filtered_row_values : DisplayLock → List Value
filtered_row_values l =
    date_value l.date
    ∷ text_value l.application
    ∷ text l.environment
    ∷ text l.lock_id
    ∷ text l.message
    ∷ text_value l.author_name
    ∷ text_value l.author_email
    ∷ []

abbrev pub environment_row_values : DisplayLock → List Value
environment_row_values l =
    date_value l.date
    ∷ text l.environment
    ∷ text l.lock_id
    ∷ text l.message
    ∷ text_value l.author_name
    ∷ text_value l.author_email
    ∷ []

-- The comparison of `sortLocks`, for rows with the given values.
pub compare_locks : (DisplayLock → List Value) → Sorting → DisplayLock → DisplayLock → Ordering
unfolding compare_values
compare_locks values_of sorting a b =
    compare_values sorting (strictly_equal (last_value (values_of a)) (last_value (values_of b)))
      (values_of a) (values_of b)

-- `sortLocks`
unfoldable pub sort_locks :
    (DisplayLock → List Value) → Sorting → List DisplayLock → List DisplayLock
unfolding compare_locks sort_by
sort_locks values_of sorting = sort_by (compare_locks values_of sorting)

-- The date of the row, which its values show first.
abbrev pub ShowsDateFirst : (DisplayLock → List Value) → DisplayLock → Type 0
ShowsDateFirst values_of l =
    (d : ℕ) × (l.date ≡ some d) × (rest : List Value) × (values_of l ≡ date d ∷ rest)

-- `a` may stand before `b`, by their dates.
abbrev pub InOrder : Sorting → DisplayLock → DisplayLock → Type 0
InOrder newest_to_oldest a b = get_or b.date 0 ≤ get_or a.date 0
InOrder oldest_to_newest a b = get_or a.date 0 ≤ get_or b.date 0

module _ (values_of : DisplayLock → List Value) where
  compare_locks-InOrder :
      (sorting : Sorting) (a b : DisplayLock)
      → ShowsDateFirst values_of a
      → ShowsDateFirst values_of b
      → if is_before (compare_locks values_of sorting a b)
        then InOrder sorting a b
        else InOrder sorting b a
  unfolding compare_locks
  compare_locks-InOrder newest_to_oldest a b (d, p, xs, e) (c, q, ys, f) =
      rw (e, f, p, q) (ground arith)
  compare_locks-InOrder oldest_to_newest a b (d, p, xs, e) (c, q, ys, f) =
      rw (e, f, p, q) (ground arith)

  InOrder-trans :
      (sorting : Sorting) (a b c : DisplayLock)
      → InOrder sorting a b
      → InOrder sorting b c
      → InOrder sorting a c
  InOrder-trans newest_to_oldest a b c h k = omega arith
  InOrder-trans oldest_to_newest a b c h k = omega arith

  -- If every lock has a date and its row shows the date first, `sortLocks` returns the same locks,
  -- in the order of their dates: latest first or earliest first, as it was asked.
  pub sort_locks-IsSorted :
      (sorting : Sorting) (locks : List DisplayLock)
      → All (ShowsDateFirst values_of) locks
      → IsSorted (InOrder sorting) (sort_locks values_of sorting locks)
        × Perm (sort_locks values_of sorting locks) locks
  unfolding sort_locks
  sort_locks-IsSorted sorting locks h = (
    sort_by-IsSorted (compare_locks values_of sorting) (ShowsDateFirst values_of) (InOrder sorting)
        (λ a b p q e. rw e at (compare_locks-InOrder sorting a b p q))
        (λ a b p q e. rw e at (compare_locks-InOrder sorting a b p q)) (InOrder-trans sorting) locks
        h,
    sort_by-perm (compare_locks values_of sorting) locks,
  )
