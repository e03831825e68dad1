-- ===== src/Store/Rollout.antt =====
-- The rollout status of store.tsx: `rolloutStatus` and its updates.
use kuberpult.Prelude.{
  String, Bool, true, false, Option, none, some, List, [], ◌∷◌, ◌==◌, ◌≡◌, refl, ◌∙◌, ap, ◌&&◌,
  if◌then◌else◌, get_or, fold, eq_iff, Bool-cases, inl, inr, arith,
}
use kuberpult.Api.{StreamStatusResponse}
use kuberpult.Store.Overview.{lookup}

-- `{ ...entries, [key]: value }`
abbrev pub put {ℓ} : {A : Type ℓ} → String → A → List (String × A) → List (String × A)
put key value [] = (key, value) ∷ []
put key value ((k, v) ∷ entries) =
    if k == key then (key, value) ∷ entries else (k, v) ∷ put key value entries

-- `RolloutStatusApplication`: the last status of each environment
abbrev pub RolloutStatusApplication : Type 0
RolloutStatusApplication = List (String × StreamStatusResponse)

-- `RolloutStatusStore`
pub record RolloutStatusStore : Type 0 where
  pub enabled : Bool
  pub applications : List (String × RolloutStatusApplication)

abbrev pub initial : RolloutStatusStore
initial = record { enabled = false; applications = [] }

-- `useRolloutStatus`
unfoldable pub rollout_status : String → RolloutStatusStore → Bool × RolloutStatusApplication
rollout_status application s = (s.enabled, get_or (lookup application s.applications) [])

unfoldable pub update_rollout_status :
    StreamStatusResponse → RolloutStatusStore → RolloutStatusStore
update_rollout_status ev s = record {
  enabled = true;
  applications =
      put ev.application (put ev.environment ev (get_or (lookup ev.application s.applications) []))
        s.applications;
}

unfoldable pub enable_rollout_status : RolloutStatusStore → RolloutStatusStore
enable_rollout_status s = record s { enabled = true }

unfoldable pub flush_rollout_status : RolloutStatusStore → RolloutStatusStore
flush_rollout_status s = record s { enabled = false; applications = [] }

-- The calls that change the store.
pub data Update : Type 0 where
  received : StreamStatusResponse → Update
  enabled : Update
  flushed : Update

unfoldable pub update : Update → RolloutStatusStore → RolloutStatusStore
unfolding update_rollout_status enable_rollout_status flush_rollout_status
update (received ev) s = update_rollout_status ev s
update enabled s = enable_rollout_status s
update flushed s = flush_rollout_status s

-- The status of an application in an environment, as the components read it.
unfoldable pub status_at : String → String → RolloutStatusStore → Option StreamStatusResponse
unfolding rollout_status
status_at application environment s = lookup environment ((rollout_status application s).1)

-- What an update says about an application in an environment, given what was known before.
abbrev pub heard :
    String → String → Option StreamStatusResponse → Update → Option StreamStatusResponse
heard application environment before (received ev) =
    if ev.application == application && ev.environment == environment then some ev else before
heard application environment before enabled = before
heard application environment before flushed = none

-- The last message about the application in the environment since the last flush.
abbrev pub last_heard :
    String → String → Option StreamStatusResponse → List Update → Option StreamStatusResponse
last_heard application environment before [] = before
last_heard application environment before (u ∷ updates) =
    last_heard application environment (heard application environment before u) updates

module _ {ℓ} {A : Type ℓ} (key : String) (value : A) where
  pub lookup-put :
      (other : String) (entries : List (String × A))
      → lookup other (put key value entries)
        ≡ (if key == other then some value else lookup other entries)
  lookup-put other [] = refl
  lookup-put other ((k, v) ∷ entries) =
      let later = lookup-put other entries in
      ground (arith, later, eq_iff k key, eq_iff key other, eq_iff k other)

status_at-update :
    (application environment : String) (u : Update) (s : RolloutStatusStore)
    → status_at application environment (update u s)
      ≡ heard application environment (status_at application environment s) u
unfolding status_at update
status_at-update application environment (received ev) s =
    let env_put =
      lookup-put ev.environment ev environment (get_or (lookup ev.application s.applications) []) in
    let app_put =
      lookup-put ev.application
        (put ev.environment ev (get_or (lookup ev.application s.applications) [])) application
        s.applications in
    elim (Bool-cases (ev.application == application)) [
      | inl same ↦
          let e : ev.application ≡ application = (eq_iff ev.application application).0 same in
          ap (λ o. lookup environment (get_or o [])) (rw same at app_put)
          ∙ env_put
          ∙ rw same (rw e refl)
      | inr differs ↦
          ap (λ o. lookup environment (get_or o [])) (rw differs at app_put) ∙ rw differs refl
    ]
status_at-update application environment enabled s = refl
status_at-update application environment flushed s = refl

-- After any updates, the status that the components read for an application in an environment is
-- the last message about the two that came since the last flush, or what was there before.
pub status_at-fold :
    (application environment : String) (updates : List Update) (s : RolloutStatusStore)
    → status_at application environment (fold update updates s)
      ≡ last_heard application environment (status_at application environment s) updates
status_at-fold application environment [] s = refl
status_at-fold application environment (u ∷ updates) s =
    status_at-fold application environment updates (update u s)
    ∙ ap (λ o. last_heard application environment o updates)
        (status_at-update application environment u s)
