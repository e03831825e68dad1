-- ===== src/Authentication.antt =====
-- services/frontend-service/src/ui/utils/AzureAuthProvider.tsx: how the user is signed in with Azure,
-- and what the page shows until then.
pub mod Tokens
use kuberpult.Prelude.{
  ℕ, String, Bool, true, false, not, Option, none, some, List, [], ◌∷◌, if◌then◌else◌, concat,
  get_or, fold,
}
use mathlib.Core.Option
use kuberpult.Api.{FrontendConfig, AzureAuthConfig}
use kuberpult.View.{Html, text_node, children, div, plain}
use kuberpult.Store.Overview.{Result, throws, returns}
use kuberpult.View.Widgets.{spinner}

-- `AzureAuthSubType`; the headers are the entries of `BrowserHeaders`.
pub record AzureAuthSub : Type 0 where
  pub auth_header : List (String × String)
  pub auth_ready : Bool

-- The initial value of the store.
abbrev pub signed_out : AzureAuthSub
signed_out = record { auth_header = []; auth_ready = false }

-- The store of `useFrontendConfig`.
pub record FrontendConfigStore : Type 0 where
  pub configs : FrontendConfig
  pub config_ready : Bool

-- The fields of `Configuration` that depend on the configuration.
pub record MsalConfig : Type 0 where
  pub client_id : String
  pub authority : String
  pub redirect_uri : String

abbrev azure_text : (AzureAuthConfig → String) → FrontendConfig → String
azure_text field configs = get_or (Option.map field configs.azure_auth) ""

-- `getMsalConfig`
unfoldable pub get_msal_config : FrontendConfig → MsalConfig
get_msal_config configs = record {
  client_id = azure_text (λ a. a.client_id) configs;
  authority =
      concat
        (azure_text (λ a. a.cloud_instance) configs ∷ azure_text (λ a. a.tenant_id) configs ∷ []);
  redirect_uri = azure_text (λ a. a.redirect_url) configs;
}

-- `useAzureAuth`
abbrev pub use_azure_auth : FrontendConfig → Bool
use_azure_auth configs =
    get_or (Option.map (λ (a : AzureAuthConfig). a.enabled) configs.azure_auth) false

-- The parts of `AccountInfo` that are read.
pub record Account : Type 0 where
  pub username : Option String
  pub name : Option String

abbrev pub first_account : List Account → Option Account
first_account [] = none
first_account (a ∷ accounts) = some a

-- What `accounts[0]?.username || ''` is, and likewise for the name.
abbrev pub account_text : (Account → Option String) → List Account → String
account_text field accounts = elim (first_account accounts) [
  | none ↦ ""
  | some a ↦ get_or (field a) ""
]

-- How a text is written in base 64.
module _ (utf8_to_base64 : String → String) where
  -- The headers that a token is put into.
  unfoldable pub headers_of : List Account → (id_token : String) → List (String × String)
  headers_of accounts id_token =
      ("Authorization", id_token)
      ∷ ("author-email", utf8_to_base64 (account_text (λ a. a.username) accounts))
      ∷ ("author-name", utf8_to_base64 (account_text (λ a. a.name) accounts))
      ∷ []

  -- The effect of `AcquireToken`: the token that is acquired silently, or else the one of the popup;
  -- `none` is a request that fails.
  unfoldable pub acquire_token :
      List Account → (silent popup : Option String) → AzureAuthSub → AzureAuthSub
  acquire_token accounts (some id_token) popup s = record {
    auth_header = headers_of accounts id_token;
    auth_ready = true;
  }
  acquire_token accounts none (some id_token) s = record {
    auth_header = headers_of accounts id_token;
    auth_ready = true;
  }
  acquire_token accounts none none s = s

-- The store after `AzureAuthProvider` is rendered.
unfoldable pub provider_effect : FrontendConfigStore → AzureAuthSub → AzureAuthSub
provider_effect c s =
    if not c.config_ready
    then s
    else if not (use_azure_auth c.configs)
    then record s { auth_ready = true }
    else s

-- `AcquireToken`, for the rest of the page, which may throw.
unfoldable pub acquire_token_view : {E : Type 0} → AzureAuthSub → Result (Html E) → Result (Html E)
acquire_token_view s rest =
    if not s.auth_ready then returns (div (text_node "loading..." ∷ [])) else rest

-- `AzureAuthProvider`; the templates of the library show the first part to a user that is signed in,
-- and the second, `AzureAutoSignIn`, to one that is not.
unfoldable pub azure_auth_provider :
    {E : Type 0}
    → FrontendConfigStore
    → (is_authenticated : Bool) → AzureAuthSub
    → Result (Html E)
    → Result (Html E)
azure_auth_provider c is_authenticated s rest =
    if not c.config_ready
    then returns (spinner "Loading Configuration")
    else if not (use_azure_auth c.configs)
    then rest
    else if is_authenticated
    then acquire_token_view s rest
    else returns (text_node "Redirecting to login")
