-- ===== src/Tests/Data.antt =====
-- Test data: two environments of one group, an application with four releases, and some actions.
use Prim.Native.String.{compare as compare_text}
use kuberpult.Prelude.{
  ℕ, String, false, Option, none, some, List, [], ◌∷◌, eqb, if◌then◌else◌, Ordering, ◌==◌, concat,
}
use kuberpult.Api.{
  Lock, Environment, EnvironmentApplication, EnvironmentGroup, Release, Application, Overview,
  BatchAction, StreamStatusResponse, RolloutStatus, deploy, create_environment_lock,
  delete_environment_lock, delete_environment_application_lock, prod, LockBehavior, UndeploySummary,
}
use kuberpult.Store.Locks.{DisplayLock}

abbrev pub lock_of : String → Option ℕ → Lock
lock_of id date = record { message = "why"; lock_id = id; created_at = date; created_by = none }

abbrev pub shop_in : ℕ → List (String × Lock) → EnvironmentApplication
shop_in version locks = record {
  name = "shop";
  version = version;
  locks = locks;
  queued_version = 0;
  undeploy_version = false;
  deployment_meta_data = none;
}

abbrev pub env_of : String → ℕ → List (String × Lock) → List (String × Lock) → Environment
env_of name version env_locks app_locks = record {
  name = name;
  locks = env_locks;
  applications = ("shop", shop_in version app_locks) ∷ [];
  distance_to_upstream = 0;
  priority = prod;
}

abbrev pub north : Environment
north = env_of "north" 3 (("a", lock_of "a" (some 10)) ∷ []) (("a", lock_of "a" (some 30)) ∷ [])

abbrev pub south : Environment
south = env_of "south" 2 (("a", lock_of "a" (some 20)) ∷ []) []

abbrev pub envs : List Environment
envs = north ∷ south ∷ []

abbrev pub group : EnvironmentGroup
group = record { environment_group_name = "live"; environments = envs; distance_to_upstream = 0 }

abbrev pub groups : List EnvironmentGroup
groups = group ∷ []

abbrev pub release_of : ℕ → Option ℕ → Release
release_of version date = record {
  version = version;
  source_commit_id = "";
  source_author = "";
  source_message = "";
  created_at = date;
  undeploy_version = false;
  pr_number = "";
  display_version = "";
}

abbrev pub shop : Application
shop = record {
  name = "shop";
  releases = release_of 3 (some 5) ∷ release_of 2 (some 4) ∷ release_of 1 none ∷ [];
  source_repo_url = "";
  team = "";
  undeploy_summary = UndeploySummary.normal;
  warnings = [];
}

abbrev pub overview : Overview
overview = record {
  applications = ("shop", shop) ∷ [];
  environment_groups = groups;
  git_revision = "";
}

abbrev pub deploying : String → ℕ → BatchAction
deploying env version = record {
  action = some (
      deploy (record {
        environment = env;
        application = "shop";
        version = version;
        ignore_all_locks = false;
        lock_behavior = LockBehavior.ignore;
      }));
}

abbrev pub locking : String → BatchAction
locking env = record {
  action =
      some (create_environment_lock (record { environment = env; lock_id = ""; message = "" }));
}

abbrev pub unlocking : String → String → BatchAction
unlocking env id = record {
  action = some (delete_environment_lock (record { environment = env; lock_id = id }));
}

abbrev pub unlocking_app : String → String → BatchAction
unlocking_app env id = record {
  action = some (
      delete_environment_application_lock
        (record { environment = env; application = "shop"; lock_id = id }));
}

-- Texts that tell the actions of the tests apart.
abbrev pub text_of : BatchAction → String
text_of a = elim a.action [
  | none ↦ ""
  | some action ↦ elim action [
    | deploy r ↦ concat ("deploy " ∷ r.environment ∷ [])
    | create_environment_lock r ↦ concat ("lock " ∷ r.environment ∷ [])
    | delete_environment_lock r ↦ concat ("unlock " ∷ r.environment ∷ [])
    | _ ↦ "other"
  ]
]

abbrev pub compare_texts : String → String → Ordering
compare_texts = compare_text

abbrev pub row_of : String → String → Option String → Option ℕ → DisplayLock
row_of env id app date = record {
  date = date;
  environment = env;
  application = app;
  message = "why";
  lock_id = id;
  author_name = none;
  author_email = none;
}

abbrev pub status_in : String → RolloutStatus → StreamStatusResponse
status_in env status = record {
  environment = env;
  application = "shop";
  version = 3;
  rollout_status = status;
}

-- The texts of the numbers 2 and 3.
abbrev pub digit : ℕ → String
digit n = if eqb n 2 then "2" else if eqb n 3 then "3" else "?"

abbrev pub read_digit : String → Option ℕ
read_digit s = if s == "2" then some 2 else if s == "3" then some 3 else none
