-- ===== src/App/Startup/Carried.antt =====
-- What the events of the start leave alone: the planned actions, and that the sign-in is settled.
use kuberpult.Prelude.{ℕ, ◌≡◌, refl, String, true, Option, none, some, arith}
use kuberpult.Authentication.{acquire_token, provider_effect}
use kuberpult.App.{
  Page, Signal, message, failure, Handlers, receive, overview_handlers, rollout_handlers,
}
use kuberpult.App.Startup.{
  Startup, Streams, Retries, Event, answers, signs_in, renders, acquires, overview_sends,
  rollout_sends, config_answers, after_acquire, overview_sent, rollout_sent, received, step,
}

abbrev KeepsActions : {M : Type 0} → Handlers M → Type 0
KeepsActions {M} h =
    ((m : M) (page : Page) → (h.on_message m page).cart.actions ≡ page.cart.actions)
    × ((code : ℕ) (text : String) (page : Page)
        → (h.on_error code text page).cart.actions ≡ page.cart.actions)

received-actions :
    {M : Type 0} (h : Handlers M) (signal : Signal M) (r : Retries) (page : Page)
    → KeepsActions h
    → (received h signal r page).page.cart.actions ≡ page.cart.actions
unfolding receive
received-actions h (message m) r page (k, _) = ground (arith, k m page)
received-actions h (failure code text) r page (_, k) = ground (arith, k code text page)

module _ (utf8_to_base64 : String → String) (stringify : String → ℕ → String → String) where
  overview-KeepsActions : KeepsActions (overview_handlers stringify)
  unfolding overview_handlers
  overview-KeepsActions = ((λ m page. refl), λ code text page. refl)

  rollout-KeepsActions : KeepsActions (rollout_handlers stringify)
  unfolding rollout_handlers
  rollout-KeepsActions = ((λ m page. refl), λ code text page. ground arith)

  overview_sent-carried :
      (signal : _) (streams : Option Streams) (s : Startup)
      → ((overview_sent utf8_to_base64 stringify signal streams s).page.cart.actions
          ≡ s.page.cart.actions)
        × ((overview_sent utf8_to_base64 stringify signal streams s).auth ≡ s.auth)
  unfolding overview_sent
  overview_sent-carried signal none s = (refl, refl)
  overview_sent-carried signal (some streams) s =
      (received-actions _ signal streams.of_overview s.page overview-KeepsActions, refl)

  rollout_sent-carried :
      (signal : _) (streams : Option Streams) (s : Startup)
      → ((rollout_sent utf8_to_base64 stringify signal streams s).page.cart.actions
          ≡ s.page.cart.actions)
        × ((rollout_sent utf8_to_base64 stringify signal streams s).auth ≡ s.auth)
  unfolding rollout_sent
  rollout_sent-carried signal none s = (refl, refl)
  rollout_sent-carried signal (some streams) s =
      (received-actions _ signal streams.of_rollout s.page rollout-KeepsActions, refl)

  -- No event of the start plans anything or drops what is planned.
  pub step-actions :
      (e : Event) (s : Startup)
      → (step utf8_to_base64 stringify e s).page.cart.actions ≡ s.page.cart.actions
  unfolding step config_answers after_acquire
  step-actions (answers none) s = ground arith
  step-actions (answers (some configs)) s = ground arith
  step-actions signs_in s = refl
  step-actions renders s = ground arith
  step-actions (acquires accounts none none) s = ground arith
  step-actions (acquires accounts (some t) popup) s = ground arith
  step-actions (acquires accounts none (some t)) s = ground arith
  step-actions (overview_sends signal) s = (overview_sent-carried signal s.streams s).0
  step-actions (rollout_sends signal) s = (rollout_sent-carried signal s.streams s).0

  -- Once the sign-in is settled, it stays so.
  pub step-auth_ready :
      (e : Event) (s : Startup)
      → s.auth.auth_ready ≡ true
      → (step utf8_to_base64 stringify e s).auth.auth_ready ≡ true
  unfolding step config_answers after_acquire acquire_token provider_effect
  step-auth_ready (answers none) s ready = ground (arith, ready)
  step-auth_ready (answers (some configs)) s ready = ground (arith, ready)
  step-auth_ready signs_in s ready = ready
  step-auth_ready renders s ready = ground (arith, ready)
  step-auth_ready (acquires accounts none none) s ready = ground (arith, ready)
  step-auth_ready (acquires accounts (some t) popup) s ready = ground (arith, ready)
  step-auth_ready (acquires accounts none (some t)) s ready = ground (arith, ready)
  step-auth_ready (overview_sends signal) s ready =
      rw ((overview_sent-carried signal s.streams s).1) ready
  step-auth_ready (rollout_sends signal) s ready =
      rw ((rollout_sent-carried signal s.streams s).1) ready
