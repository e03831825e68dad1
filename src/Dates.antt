-- ===== src/Dates.antt =====
-- services/frontend-service/src/ui/components: FormattedDate/FormattedDate.tsx, and the grouping of
-- the releases by their date in Releases/Releases.tsx.
pub mod Grouping
pub mod Rounding
use kuberpult.Prelude.{
  ℕ, ◌+◌, ◌*◌, ◌-◌, ◌/◌, String, Bool, true, false, Option, none, some, List, [], ◌∷◌, ◌++◌, ◌==◌,
  eqb, ltb, if◌then◌else◌, concat, map, get_or, get_elem?,
}
use kuberpult.Api.{Release}

abbrev pub ms_per_minute : ℕ
ms_per_minute = 60000

abbrev pub ms_per_hour : ℕ
ms_per_hour = 3600000

abbrev pub ms_per_day : ℕ
ms_per_day = 86400000

abbrev pub ms_per_month : ℕ
ms_per_month = 2592000000

-- `msPerDay * 365`
abbrev pub ms_per_year : ℕ
ms_per_year = 31536000000

-- A date is just now, or a number of units ago.
pub data TimeUnit : Type 0 where
  minute hour day month year : TimeUnit

abbrev pub milliseconds : TimeUnit → ℕ
milliseconds minute = ms_per_minute
milliseconds hour = ms_per_hour
milliseconds day = ms_per_day
milliseconds month = ms_per_month
milliseconds year = ms_per_year

-- `Math.round(elapsed / unit)`, which rounds a half up.
abbrev pub rounded : (elapsed unit : ℕ) → ℕ
rounded elapsed unit = (2 * elapsed + unit) / (2 * unit)

-- The chain of conditions of `getRelativeDate`: the unit that is used, and how many of it.
unfoldable pub relative_date : (elapsed : ℕ) → Option (TimeUnit × ℕ)
relative_date elapsed =
    if ltb elapsed ms_per_minute
    then none
    else if ltb elapsed ms_per_hour
    then some (minute, rounded elapsed ms_per_minute)
    else if ltb elapsed ms_per_day
    then some (hour, rounded elapsed ms_per_hour)
    else if ltb elapsed ms_per_month
    then some (day, rounded elapsed ms_per_day)
    else if ltb elapsed ms_per_year
    then some (month, rounded elapsed ms_per_month)
    else some (year, rounded elapsed ms_per_year)

abbrev one_text : TimeUnit → String
one_text minute = "1 minute ago"
one_text hour = "1 hour ago"
one_text day = "~ 1 day ago"
one_text month = "~ 1 month ago"
one_text year = "~ 1 year ago"

abbrev many_text : TimeUnit → String → String
many_text minute n = concat (n ∷ " minutes ago" ∷ [])
many_text hour n = concat (n ∷ " hours ago" ∷ [])
many_text day n = concat ("~ " ∷ n ∷ " days ago" ∷ [])
many_text month n = concat ("~ " ∷ n ∷ " months ago" ∷ [])
many_text year n = concat ("~ " ∷ n ∷ " years ago" ∷ [])

-- `getRelativeDate`; a date that lies ahead is just now, as the difference is negative.
module _ (number_text : ℕ → String) where
  unfoldable pub get_relative_date : (current : ℕ) (target : Option ℕ) → String
  unfolding relative_date
  get_relative_date current none = ""
  get_relative_date current (some target) = elim (relative_date (current - target)) [
    | none ↦ "just now"
    | some (u, n) ↦ if eqb n 1 then one_text u else many_text u (number_text n)
  ]

-- `dateFormat`; what `getMonth`, `getDate` and `getFullYear` return for a time are arguments.
abbrev months : List String
months =
    "Jan" ∷ "Feb" ∷ "Mar" ∷ "Apr" ∷ "May" ∷ "Jun" ∷ "Jul" ∷ "Aug" ∷ "Sep" ∷ "Oct" ∷ "Nov" ∷ "Dec"
    ∷ []

unfoldable pub date_format :
    (number_text : ℕ → String) (get_month get_date get_full_year : ℕ → ℕ) → ℕ → String
date_format number_text get_month get_date get_full_year date = concat (
    get_or (get_elem? months (get_month date)) "undefined"
    ∷ " "
    ∷ number_text (get_date date)
    ∷ ", "
    ∷ number_text (get_full_year date)
    ∷ [])

-- `getReleasesForAppGroupByDate`; what `toDateString` writes for a time is an argument.
module _ (date_string : ℕ → String) where
  abbrev pub push : String → Release → List (String × List Release) → List (String × List Release)
  push key r [] = (key, r ∷ []) ∷ []
  push key r ((k, rs) ∷ groups) =
      if k == key then (k, rs ++ r ∷ []) ∷ groups else (k, rs) ∷ push key r groups

  unfoldable pub group_by_date :
      List (String × List Release) → List Release → List (String × List Release)
  group_by_date groups [] = groups
  group_by_date groups (r ∷ releases) = elim r.created_at [
    | none ↦ group_by_date groups releases
    | some d ↦ group_by_date (push (date_string d) r groups) releases
  ]
