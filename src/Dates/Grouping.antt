-- ===== src/Dates/Grouping.antt =====
-- The groups of the releases page.
use kuberpult.Prelude.{
  ℕ, ◌≡◌, refl, ap, ◌∙◌, sym, String, Bool, false, Option, none, some, List, [], ◌∷◌, ◌++◌, ◌==◌,
  if◌then◌else◌, get_or, filter, Bool-cases, inl, inr, eq_iff, arith, append_assoc, append-nil,
}
use kuberpult.Api.{Release}
use kuberpult.Store.Overview.{lookup}
use kuberpult.Dates.{push, group_by_date}

module _ (date_string : ℕ → String) where
  -- Whether a release was created on the day.
  abbrev pub is_of_day : String → Release → Bool
  is_of_day day r = elim r.created_at [ none ↦ false | some d ↦ date_string d == day ]

  abbrev pub group_of : String → List (String × List Release) → List Release
  group_of day groups = get_or (lookup day groups) []

  group_of-push :
      (day other : String) (r : Release) (groups : List (String × List Release))
      → group_of other (push date_string day r groups)
        ≡ (if day == other then group_of other groups ++ r ∷ [] else group_of other groups)
  group_of-push day other r [] = ground arith
  group_of-push day other r ((k, rs) ∷ groups) =
      ground
        (arith, group_of-push day other r groups, eq_iff k day, eq_iff day other, eq_iff k other)

  -- The group of a day has the releases of the list that were created on that day, in the order of
  -- the list, behind those that it had before.
  pub group_by_date-filter :
      (day : String) (releases : List Release) (groups : List (String × List Release))
      → group_of day (group_by_date date_string groups releases)
        ≡ group_of day groups ++ filter (is_of_day day) releases
  unfolding group_by_date
  group_by_date-filter day [] groups = sym (append-nil (group_of day groups))
  group_by_date-filter day (r ∷ releases) groups =
      let later = filter (is_of_day day) releases in
      elim r.created_at
        as (λ (o : Option ℕ).
          group_of day (elim o [
            | none ↦ group_by_date date_string groups releases
            | some d ↦
                group_by_date date_string (push date_string (date_string d) r groups) releases
          ])
          ≡ group_of day groups
            ++ (if (elim o [ none ↦ false | some d ↦ date_string d == day ])
                then r ∷ later
                else later)) [
                  | none ↦ group_by_date-filter day releases groups
                  | some d ↦
                      group_by_date-filter day releases (push date_string (date_string d) r groups)
                      ∙ ap (λ xs. xs ++ later) (group_of-push (date_string d) day r groups)
                      ∙ (elim (Bool-cases (date_string d == day)) [
                        | inl b ↦ rw b (append_assoc (group_of day groups) (r ∷ []) later)
                        | inr b ↦ rw b refl
                      ])
                ]
