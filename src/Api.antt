-- ===== src/Api.antt =====
-- The messages of pkg/api/api.proto that the frontend holds, with the constructors and fields of
-- the TypeScript types that are generated from it. An enum has the extra value for a number that
-- the generated code does not know. A timestamp is its milliseconds since 1970; a map is the list
-- of its entries, each key once, in the order in which `Object.values` runs through them.
mod Actions
pub use Actions.*
use kuberpult.Prelude.{ℕ, String, Bool, Option, List}

pub record Actor : Type 0 where
  pub name : String
  pub email : String

pub record Lock : Type 0 where
  pub message : String
  pub lock_id : String
  pub created_at : Option ℕ
  pub created_by : Option Actor

pub data Priority : Type 0 where
  prod pre_prod upstream other unrecognized : Priority

-- `Environment_Application_DeploymentMetaData`
pub record DeploymentMetaData : Type 0 where
  pub deploy_author : String
  pub deploy_time : String

-- `Environment_Application`; its field `argoCD` is not modelled, the frontend does not read it.
pub record EnvironmentApplication : Type 0 where
  pub name : String
  pub version : ℕ
  pub locks : List (String × Lock)
  pub queued_version : ℕ
  pub undeploy_version : Bool
  pub deployment_meta_data : Option DeploymentMetaData

-- The field `config` is not modelled, the frontend does not read it.
pub record Environment : Type 0 where
  pub name : String
  pub locks : List (String × Lock)
  pub applications : List (String × EnvironmentApplication)
  pub distance_to_upstream : ℕ
  pub priority : Priority

pub record EnvironmentGroup : Type 0 where
  pub environment_group_name : String
  pub environments : List Environment
  pub distance_to_upstream : ℕ

pub record Release : Type 0 where
  pub version : ℕ
  pub source_commit_id : String
  pub source_author : String
  pub source_message : String
  pub created_at : Option ℕ
  pub undeploy_version : Bool
  pub pr_number : String
  pub display_version : String

pub data UndeploySummary : Type 0 where
  normal undeploy mixed unrecognized : UndeploySummary

pub record UnusualDeploymentOrder : Type 0 where
  pub upstream_version : ℕ
  pub upstream_environment : String
  pub this_version : ℕ
  pub this_environment : String

pub record UpstreamNotDeployed : Type 0 where
  pub upstream_environment : String
  pub this_version : ℕ
  pub this_environment : String

-- `unset` is a warning whose `warningType` is undefined.
pub data Warning : Type 0 where
  unset : Warning
  unusual_deployment_order : UnusualDeploymentOrder → Warning
  upstream_not_deployed : UpstreamNotDeployed → Warning

pub record Application : Type 0 where
  pub name : String
  pub releases : List Release
  pub source_repo_url : String
  pub team : String
  pub undeploy_summary : UndeploySummary
  pub warnings : List Warning

-- `GetOverviewResponse`
pub record Overview : Type 0 where
  pub applications : List (String × Application)
  pub environment_groups : List EnvironmentGroup
  pub git_revision : String

pub data RolloutStatus : Type 0 where
  unknown succesful progressing error unrecognized : RolloutStatus

pub record StreamStatusResponse : Type 0 where
  pub environment : String
  pub application : String
  pub version : ℕ
  pub rollout_status : RolloutStatus

-- `GetFrontendConfigResponse_Auth_AzureAuthConfig`
pub record AzureAuthConfig : Type 0 where
  pub enabled : Bool
  pub client_id : String
  pub tenant_id : String
  pub cloud_instance : String
  pub redirect_url : String

-- `GetFrontendConfigResponse`, with the address of Argo CD and the settings of Azure, if it has them.
pub record FrontendConfig : Type 0 where
  pub argo_base_url : Option String
  pub azure_auth : Option AzureAuthConfig
  pub source_repo_url : String
  pub kuberpult_version : String
  pub branch : String
  pub manifest_repo_url : String
