-- ===== src/Store/Locks/Lookup.antt =====
-- What `useEnvironmentLock` finds for the lock ids of an environment card.
use kuberpult.Prelude.{
  ◌≡◌, refl, ◌||◌, String, none, some, List, [], ◌∷◌, ◌==◌, eq_iff, eq_refl, All, All-append, map,
  find, Bool-cases, inl, inr, Option-cases, find-some, find_of_mem, All-of_mem, All-imp, All-map,
}
use mathlib.Core.List.{map-append}
use kuberpult.Api.{Lock, Environment}
use kuberpult.Store.Locks.{
  DisplayLock, values, environment_lock_row, environment_lock, filtered_environment_lock_ids,
}

-- The lock is found, it is the one that was asked for, and it is an environment lock.
abbrev pub IsFound : List Environment → String → Type 0
IsFound envs id =
    (l : DisplayLock) × (environment_lock id envs ≡ some l)
    × (l.lock_id ≡ id)
    × (l.application ≡ none)

module _ (env : Environment) (envs : List Environment) (id : String) where
  IsFound-here :
      (lock : Lock)
      → find (λ (l : Lock). l.lock_id == id) (values env.locks) ≡ some lock
      → IsFound (env ∷ envs) id
  unfolding environment_lock
  IsFound-here lock e =
      let same = find-some (λ (l : Lock). l.lock_id == id) (values env.locks) e in
      (
        environment_lock_row env lock,
        rw (e, environment_lock),
        (eq_iff lock.lock_id id).0 same,
        refl,
      )

  IsFound-cons : IsFound envs id → IsFound (env ∷ envs) id
  unfolding environment_lock
  IsFound-cons (l, e, same, kind) =
      elim (Option-cases (find (λ (l : Lock). l.lock_id == id) (values env.locks))) [
        | inl missing ↦ (l, rw (missing, environment_lock) e, same, kind)
        | inr (lock, found) ↦ IsFound-here lock found
      ]

own_locks-IsFound :
    (env : Environment) (envs : List Environment)
    → All (λ (l : Lock). IsFound (env ∷ envs) l.lock_id) (values env.locks)
own_locks-IsFound env envs = All-of_mem _ (values env.locks) λ lock m.
    let (found, e) =
      find_of_mem (λ (l : Lock). l.lock_id == lock.lock_id) (values env.locks) m
        (eq_refl lock.lock_id) in
    IsFound-here env envs lock.lock_id found e

-- Whatever environment of a list has a lock, the lock is found in the list.
pub every_lock-IsFound :
    (envs : List Environment)
    → All
        (λ (env : Environment). All (λ (l : Lock). IsFound envs l.lock_id) (values env.locks))
        envs
every_lock-IsFound [] = tt
every_lock-IsFound (env ∷ envs) = (
  own_locks-IsFound env envs,
  All-imp _ _
      (λ (other : Environment) found.
        All-imp (λ (l : Lock). IsFound envs l.lock_id)
          (λ (l : Lock). IsFound (env ∷ envs) l.lock_id) (λ l. IsFound-cons env envs l.lock_id)
          (values other.locks) found)
      envs (every_lock-IsFound envs),
)

-- Every id that `useFilteredEnvironmentLockIDs` returns, for one environment or for all, is found
-- by `useEnvironmentLock`, which then returns an environment lock with that id and does not throw.
pub filtered_environment_lock_ids-IsFound :
    (name : String) (envs : List Environment)
    → All (IsFound envs) (filtered_environment_lock_ids name envs)
unfolding filtered_environment_lock_ids
filtered_environment_lock_ids-IsFound name [] = tt
filtered_environment_lock_ids-IsFound name (env ∷ envs) =
    let later =
      All-imp (IsFound envs) (IsFound (env ∷ envs)) (IsFound-cons env envs) _
        (filtered_environment_lock_ids-IsFound name envs) in
    elim (Bool-cases (name == "" || env.name == name)) [
      | inl shown ↦
          rw (shown, map-append)
            (All-append (IsFound (env ∷ envs)) (map _ (values env.locks)) _
              (All-map (IsFound (env ∷ envs)) _ (values env.locks) (own_locks-IsFound env envs))
              later)
      | inr hidden ↦ rw hidden later
    ]
