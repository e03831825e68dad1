-- ===== src/App/Streams.antt =====
-- Failures of a stream, and what a page that is still loading says.
use kuberpult.Prelude.{
  ℕ, suc, ◌≡◌, refl, ◌≤◌, ◌+◌, Bool, true, false, List, [], ◌∷◌, ◌==◌, fold, arith, leb, String,
}
use kuberpult.App.{
  Signal, message, failure, Handlers, Subscription, receive, max_retry_attempts, GlobalLoadingState,
  everything_loaded, loading_message,
}

module _ {M : Type 0} where
  abbrev pub failures : List (Signal M) → ℕ
  failures [] = 0
  failures (message m ∷ signals) = failures signals
  failures (failure code text ∷ signals) = failures signals + 1

  abbrev pub messages : List (Signal M) → List M
  messages [] = []
  messages (message m ∷ signals) = m ∷ messages signals
  messages (failure code text ∷ signals) = messages signals

module _ {M : Type 0} (h : Handlers M) where
  -- While a stream that is not over has failed at most eight times in all, it goes on, and the page
  -- is what the messages have made of it, as if nothing had failed.
  pub receive-messages :
      (signals : List (Signal M)) (s : Subscription)
      → s.over ≡ false
      → s.attempt + failures signals ≤ max_retry_attempts
      → ((fold (receive h) signals s).over ≡ false)
        × ((fold (receive h) signals s).page ≡ fold h.on_message (messages signals) s.page)
  unfolding receive
  receive-messages [] s live few = (live, refl)
  receive-messages (message m ∷ signals) s live few =
      simp live (
        receive-messages signals (record s { over = false; page = h.on_message m s.page }) refl few)
  receive-messages (failure code text ∷ signals) s live few =
      let on : leb max_retry_attempts s.attempt ≡ false = ground (arith, few) in
      simp (live, on)
        (receive-messages signals (record s { attempt = suc s.attempt; over = false }) refl
          (omega (arith, few)))

  ended :
      (later : List (Signal M)) (s : Subscription)
      → s.over ≡ true
      → (fold (receive h) later s).page ≡ s.page
  unfolding receive
  ended [] s over = refl
  ended (message m ∷ later) s over = simp over (ended later s over)
  ended (failure code text ∷ later) s over = simp over (ended later s over)

  -- If a stream is not over and has failed eight times, the next failure is reported, and nothing
  -- that comes after changes the page.
  pub receive_over :
      (code : ℕ) (text : String) (later : List (Signal M)) (s : Subscription)
      → s.over ≡ false
      → s.attempt ≡ max_retry_attempts
      → (fold (receive h) (failure code text ∷ later) s).page ≡ h.on_error code text s.page
  unfolding receive
  receive_over code text later s live e =
      let off : leb max_retry_attempts s.attempt ≡ true = ground (arith, e) in
      simp (live, off)
        (ended later (record s { over = true; page = h.on_error code text s.page }) refl)

abbrev state_of :
    (config_ready is_authenticated azure_auth_enabled overview_loaded : Bool) → GlobalLoadingState
state_of c i a o = record {
  config_ready = c;
  is_authenticated = i;
  azure_auth_enabled = a;
  overview_loaded = o;
}

loading_cases :
    (c i a o : Bool)
    → (loading_message (state_of c i a o) == "Loading") ≡ everything_loaded (state_of c i a o)
unfolding loading_message everything_loaded
loading_cases false i a false = refl
loading_cases false i a true = refl
loading_cases true false true false = refl
loading_cases true false true true = refl
loading_cases true true true false = refl
loading_cases true true false false = refl
loading_cases true true true true = refl
loading_cases true true false true = refl
loading_cases true false false false = refl
loading_cases true false false true = refl

-- The spinner shows its last message, which names nothing that is missing, exactly if everything is
-- loaded.
pub loading_message-everything_loaded :
    (s : GlobalLoadingState) → (loading_message s == "Loading") ≡ everything_loaded s
loading_message-everything_loaded s =
    loading_cases s.config_ready s.is_authenticated s.azure_auth_enabled s.overview_loaded
