-- ===== src/App.antt =====
-- services/frontend-service/src/ui: App/index.tsx, utils/LoadingStateSpinner.tsx and the loading
-- state of utils/store.tsx.
pub mod Backoff
pub mod Loading
pub mod Session
pub mod Startup
pub mod Streams
pub mod View
use kuberpult.Prelude.{
  ℕ, zero, suc, String, Bool, true, false, ◌&&◌, ◌||◌, ◌*◌, ◌+◌, not, Option, none, some, List, [],
  ◌∷◌, eqb, leb, if◌then◌else◌,
}
use kuberpult.Api.{Overview, StreamStatusResponse}
use kuberpult.Store.Cart.{Cart, show_snackbar_warn}
use kuberpult.Store.Rollout.{
  RolloutStatusStore, update_rollout_status, enable_rollout_status, flush_rollout_status,
}

-- The stores that the streams write.
pub record Page : Type 0 where
  pub overview : Option Overview
  pub overview_loaded : Bool
  pub panic_error : String
  pub rollout : RolloutStatusStore
  pub cart : Cart

-- `retryStrategy`: whether the error of the attempt with this index is passed on.
abbrev pub gives_up : (max_retry_attempts retry_attempt : ℕ) → Bool
gives_up max_retry_attempts retry_attempt = leb max_retry_attempts retry_attempt

abbrev pub max_retry_attempts : ℕ
max_retry_attempts = 8

-- `2 ** n`
abbrev pub power_of_two : ℕ → ℕ
power_of_two zero = 1
power_of_two (suc n) = 2 * power_of_two n

-- `backoffTime`, in milliseconds; the random part is below 1000.
unfoldable pub backoff_time : (retry_attempt random : ℕ) → ℕ
backoff_time retry_attempt random = 1000 * power_of_two retry_attempt + random

-- What the source of a stream does next.
pub data Signal (M : Type 0) : Type 0 where
  message : M → Signal M
  failure : (code : ℕ) (text : String) → Signal M

-- The `subscribe` callbacks of a stream.
pub record Handlers (M : Type 0) : Type 0 where
  pub on_message : M → Page → Page
  pub on_error : (code : ℕ) (text : String) → Page → Page

-- A subscription with its retries: the number of failures so far, or that it is over.
pub record Subscription : Type 0 where
  pub attempt : ℕ
  pub over : Bool
  pub page : Page

unfoldable pub receive : {M : Type 0} → Handlers M → Signal M → Subscription → Subscription
receive h (message m) s = if s.over then s else record s { page = h.on_message m s.page }
receive h (failure code text) s =
    if s.over
    then s
    else if gives_up max_retry_attempts s.attempt
    then record s { over = true; page = h.on_error code text s.page }
    else record s { attempt = suc s.attempt }

-- The callbacks of the overview's stream; how an error is written as JSON is an argument.
module _ (stringify : String → ℕ → String → String) where
  unfoldable pub overview_handlers : Handlers Overview
  unfolding show_snackbar_warn
  overview_handlers = record {
    on_message =
        λ o page. record page { overview = some o; overview_loaded = true; panic_error = "" };
    on_error = λ code text page. record page {
      panic_error = stringify "error in streamoverview" code text;
      cart = show_snackbar_warn "Connection Error: Refresh the page" page.cart;
    };
  }

  -- The callbacks of the rollout status' stream; 12 means that there is no rollout service.
  unfoldable pub rollout_handlers : Handlers StreamStatusResponse
  unfolding update_rollout_status enable_rollout_status flush_rollout_status
  rollout_handlers = record {
    on_message = λ ev page. record page { rollout = update_rollout_status ev page.rollout };
    on_error = λ code text page.
        if eqb code 12
        then record page { rollout = flush_rollout_status page.rollout }
        else record page {
          panic_error = stringify "error in rolloutstatus" code text;
          rollout = enable_rollout_status page.rollout;
        };
  }

-- `GlobalLoadingState`
pub record GlobalLoadingState : Type 0 where
  pub config_ready : Bool
  pub is_authenticated : Bool
  pub azure_auth_enabled : Bool
  pub overview_loaded : Bool

-- `everythingLoaded`
unfoldable pub everything_loaded : GlobalLoadingState → Bool
everything_loaded s =
    s.overview_loaded && s.config_ready && (s.is_authenticated || not s.azure_auth_enabled)

-- `LoadingStateSpinner`
unfoldable pub loading_message : GlobalLoadingState → String
loading_message s =
    if not s.config_ready
    then "Loading Configuration"
    else if s.azure_auth_enabled && not s.is_authenticated
    then "Authenticating with Azure"
    else if not s.overview_loaded
    then "Loading Overview"
    else "Loading"
