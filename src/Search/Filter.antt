-- ===== src/Search/Filter.antt =====
-- The choice of teams in the dropdown, and the applications that the home page then shows.
use kuberpult.Prelude.{
  ◌≡◌, refl, String, Bool, false, ◌||◌, List, [], ◌==◌, ltb, eqb, length, filter, if◌then◌else◌,
  Bool-cases, inl, inr,
}
use kuberpult.Store.Overview.{lookup}
use kuberpult.Store.Rollout.{lookup-put}
use kuberpult.Store.Dialog.{Params, lookup-delete}
use kuberpult.ServiceLane.Display.{find_index}
use kuberpult.Search.{join, is_named, handle_change, home_teams}

-- "Clear" was chosen after some team, or the last team was taken out.
abbrev pub is_cleared : List String → Bool
is_cleared selected = ltb 1 (find_index (λ s. s == "") selected) || eqb (length selected) 0

module _ (split : String → List String) where
  -- The named texts are read back from what they are joined to.
  abbrev pub ReadsBack : List String → Type 0
  ReadsBack teams = filter is_named (split (join "," teams)) ≡ teams

  -- If the chosen teams, and the empty list, are read back from what they are joined to, then after a
  -- choice in the dropdown the home page filters by the chosen teams, or by none if the choice was
  -- cleared, and every other parameter of the address is as it was.
  pub home_teams-handle_change :
      (selected : List String) (params : Params)
      → ReadsBack []
      → ReadsBack (filter is_named selected)
      → (home_teams split (handle_change selected params)
          ≡ (if is_cleared selected then [] else filter is_named selected))
        × ((other : String)
            → ("teams" == other) ≡ false
            → lookup other (handle_change selected params) ≡ lookup other params)
  unfolding home_teams handle_change
  home_teams-handle_change selected params none_chosen chosen =
      elim (Bool-cases (is_cleared selected)) [
        | inl cleared ↦ (
          rw (home_teams, handle_change, cleared, lookup-delete "teams" "teams" params) none_chosen,
          λ other differs.
              rw (handle_change, cleared, lookup-delete "teams" other params, differs) refl,
        )
        | inr kept ↦
            let text = join "," (filter is_named selected) in
            (
              rw (home_teams, handle_change, kept, lookup-put "teams" text "teams" params) chosen,
              λ other differs.
                  rw (handle_change, kept, lookup-put "teams" text other params, differs) refl,
            )
      ]
