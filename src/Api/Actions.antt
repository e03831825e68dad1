-- ===== src/Api/Actions.antt =====
-- `BatchAction` of pkg/api/api.proto and the requests that it can carry.
use kuberpult.Prelude.{ℕ, String, Bool, Option, List}

pub record CreateEnvironmentLockRequest : Type 0 where
  pub environment : String
  pub lock_id : String
  pub message : String

pub record DeleteEnvironmentLockRequest : Type 0 where
  pub environment : String
  pub lock_id : String

pub record CreateEnvironmentGroupLockRequest : Type 0 where
  pub environment_group : String
  pub lock_id : String
  pub message : String

pub record DeleteEnvironmentGroupLockRequest : Type 0 where
  pub environment_group : String
  pub lock_id : String

pub record CreateEnvironmentApplicationLockRequest : Type 0 where
  pub environment : String
  pub application : String
  pub lock_id : String
  pub message : String

pub record DeleteEnvironmentApplicationLockRequest : Type 0 where
  pub environment : String
  pub application : String
  pub lock_id : String

pub record CreateReleaseRequest : Type 0 where
  pub environment : String
  pub application : String
  pub team : String
  pub manifests : List (String × String)
  pub version : ℕ
  pub source_commit_id : String
  pub source_author : String
  pub source_message : String
  pub source_repo_url : String
  pub display_version : String

pub data LockBehavior : Type 0 where
  record_lock fail ignore unrecognized : LockBehavior

pub record DeployRequest : Type 0 where
  pub environment : String
  pub application : String
  pub version : ℕ
  pub ignore_all_locks : Bool
  pub lock_behavior : LockBehavior

pub record PrepareUndeployRequest : Type 0 where
  pub application : String

pub record UndeployRequest : Type 0 where
  pub application : String

pub record DeleteEnvironmentFromAppRequest : Type 0 where
  pub application : String
  pub environment : String

pub record ReleaseTrainRequest : Type 0 where
  pub target : String
  pub team : String

-- `EnvironmentConfig` is opaque: the frontend never builds one, nor reads one.
pub record CreateEnvironmentRequest : Type 0 where
  pub environment : String

-- The `oneof` of a batch action, told apart by `$case`.
pub data Action : Type 0 where
  create_environment_lock : CreateEnvironmentLockRequest → Action
  delete_environment_lock : DeleteEnvironmentLockRequest → Action
  create_environment_application_lock : CreateEnvironmentApplicationLockRequest → Action
  delete_environment_application_lock : DeleteEnvironmentApplicationLockRequest → Action
  deploy : DeployRequest → Action
  prepare_undeploy : PrepareUndeployRequest → Action
  undeploy : UndeployRequest → Action
  delete_env_from_app : DeleteEnvironmentFromAppRequest → Action
  create_environment : CreateEnvironmentRequest → Action
  release_train : ReleaseTrainRequest → Action
  create_release : CreateReleaseRequest → Action
  create_environment_group_lock : CreateEnvironmentGroupLockRequest → Action
  delete_environment_group_lock : DeleteEnvironmentGroupLockRequest → Action

pub record BatchAction : Type 0 where
  pub action : Option Action
