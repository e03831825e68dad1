-- ===== src/App/Startup/Order.antt =====
-- In which order the page is started.
use kuberpult.Prelude.{
  ℕ, ◌≡◌, refl, sym, ap, ◌∙◌, String, true, false, ◌&&◌, not, Option, none, some, List, [], ◌∷◌,
  fold, arith, is_some, Bool-cases, inl, inr, ◌⊎◌,
}
use kuberpult.Store.Overview.{lookup}
use kuberpult.Authentication.{
  AzureAuthSub, FrontendConfigStore, use_azure_auth, provider_effect, headers_of, acquire_token,
}
use kuberpult.App.{everything_loaded}
use kuberpult.App.Startup.{
  Startup, Streams, Event, answers, signs_in, renders, acquires, overview_sends, rollout_sends,
  started, subscribe, renders_acquire_token, config_answers, after_acquire, overview_sent,
  rollout_sent, step, loading_state,
}

-- The streams run exactly if the sign-in is settled; that needs the configuration and, where Azure is
-- enabled, an authenticated user and a token in the headers; and an overview has come from a stream.
-- A call for the configuration is open as long as there is none.
pub record IsGuarded (s : Startup) : Type 0 where
  pub subscribed : is_some s.streams ≡ s.auth.auth_ready
  pub configured : s.auth.auth_ready ≡ true → s.config.config_ready ≡ true
  pub authenticated :
      s.auth.auth_ready ≡ true
      → use_azure_auth s.config.configs ≡ true
      → (s.is_authenticated ≡ true) × (is_some (lookup "Authorization" s.auth.auth_header) ≡ true)
  pub settled : s.page.overview_loaded ≡ true → s.auth.auth_ready ≡ true
  pub answered : s.config.config_ready ≡ true → s.config_called ≡ false

is_some-subscribe : (auth : AzureAuthSub) → is_some (subscribe auth) ≡ auth.auth_ready
unfolding subscribe
is_some-subscribe auth = ground arith

pub started-IsGuarded : (title : String) → IsGuarded (started title)
unfolding started
started-IsGuarded title = record {
  subscribed = refl;
  configured = λ ready. ground (arith, ready);
  authenticated = λ ready _. ground (arith, ready);
  settled = λ loaded. ground (arith, loaded);
  answered = λ ready. ground (arith, ready);
}

-- The answer of the call for the configuration, which comes before anybody is signed in.
config_answers-IsGuarded :
    (answer : Option _) (s : Startup)
    → s.config_called ≡ true
    → IsGuarded s
    → IsGuarded (config_answers answer s)
unfolding config_answers
config_answers-IsGuarded none s called g = record {
  subscribed = g.subscribed;
  configured = g.configured;
  authenticated = g.authenticated;
  settled = g.settled;
  answered = λ _. refl;
}
config_answers-IsGuarded (some configs) s called g =
    let unready : s.auth.auth_ready ≡ false = ground (arith, called, g.configured, g.answered) in
    record {
      subscribed = g.subscribed;
      configured = λ _. refl;
      authenticated = λ ready _. ground (arith, ready, unready);
      settled = g.settled;
      answered = λ _. refl;
    }

-- `AzureAuthProvider` settles the sign-in only where the configuration does without Azure.
provider_effect-auth :
    (c : FrontendConfigStore) (a : AzureAuthSub)
    → ((provider_effect c a).auth_header ≡ a.auth_header)
      × (a.auth_ready ≡ true → (provider_effect c a).auth_ready ≡ true)
      × ((provider_effect c a).auth_ready ≡ true
          → (a.auth_ready ≡ true) ⊎ (c.config_ready ≡ true) × (use_azure_auth c.configs ≡ false))
unfolding provider_effect
provider_effect-auth c a =
    (ground arith, (λ ready. ground (arith, ready)), λ ready. ground (arith, ready))

module _ (utf8_to_base64 : String → String) (stringify : String → ℕ → String → String) where
  -- A token, for a user that `AcquireToken` is rendered for.
  after_acquire-IsGuarded :
      (accounts : List _) (silent popup : Option String) (s : Startup)
      → (s.config.config_ready ≡ true) × (s.is_authenticated ≡ true)
      → IsGuarded s
      → IsGuarded (after_acquire utf8_to_base64 stringify accounts silent popup s)
  unfolding after_acquire acquire_token headers_of
  after_acquire-IsGuarded accounts none none s shown g = g
  after_acquire-IsGuarded accounts none (some t) s (ready, user) g = record {
    subscribed = is_some-subscribe _;
    configured = λ _. ready;
    authenticated = λ _ _. (user, refl);
    settled = λ _. refl;
    answered = g.answered;
  }
  after_acquire-IsGuarded accounts (some t) popup s (ready, user) g = record {
    subscribed = is_some-subscribe _;
    configured = λ _. ready;
    authenticated = λ _ _. (user, refl);
    settled = λ _. refl;
    answered = g.answered;
  }

  overview_sent-IsGuarded :
      (signal : _) (streams : Option Streams) (s : Startup)
      → s.streams ≡ streams
      → IsGuarded s
      → IsGuarded (overview_sent utf8_to_base64 stringify signal streams s)
  unfolding overview_sent
  overview_sent-IsGuarded signal none s e g = g
  overview_sent-IsGuarded signal (some streams) s e g =
      let ready : s.auth.auth_ready ≡ true = sym g.subscribed ∙ ap is_some e in
      record {
        subscribed = sym ready;
        configured = g.configured;
        authenticated = g.authenticated;
        settled = λ _. ready;
        answered = g.answered;
      }

  rollout_sent-IsGuarded :
      (signal : _) (streams : Option Streams) (s : Startup)
      → s.streams ≡ streams
      → IsGuarded s
      → IsGuarded (rollout_sent utf8_to_base64 stringify signal streams s)
  unfolding rollout_sent
  rollout_sent-IsGuarded signal none s e g = g
  rollout_sent-IsGuarded signal (some streams) s e g =
      let ready : s.auth.auth_ready ≡ true = sym g.subscribed ∙ ap is_some e in
      record {
        subscribed = sym ready;
        configured = g.configured;
        authenticated = g.authenticated;
        settled = λ _. ready;
        answered = g.answered;
      }

  renders-IsGuarded :
      (s : Startup) → IsGuarded s → IsGuarded (step utf8_to_base64 stringify renders s)
  unfolding step
  renders-IsGuarded s g =
      let (header, kept, cause) = provider_effect-auth s.config s.auth in
      let auth = provider_effect s.config s.auth in
      elim (Bool-cases (auth.auth_ready && not s.auth.auth_ready)) [
        | inl changed ↦ rw changed (record {
          subscribed = is_some-subscribe auth;
          configured = λ ready. ground (arith, changed, cause ready);
          authenticated = λ ready azure. ground (arith, changed, azure, cause ready);
          settled = λ loaded. kept (g.settled loaded);
          answered = g.answered;
        })
        | inr same ↦ rw same (record {
          subscribed = ground (arith, same, kept, g.subscribed);
          configured = λ ready. g.configured (ground (arith, same, ready));
          authenticated = λ ready azure.
              let (user, token) = g.authenticated (ground (arith, same, ready)) azure in
              (user, ap (λ h. is_some (lookup "Authorization" h)) header ∙ token);
          settled = λ loaded. kept (g.settled loaded);
          answered = g.answered;
        })
      ]

  pub step-IsGuarded :
      (e : Event) (s : Startup) → IsGuarded s → IsGuarded (step utf8_to_base64 stringify e s)
  unfolding step
  step-IsGuarded (answers answer) s g = elim (Bool-cases s.config_called) [
    | inl called ↦ simp called (config_answers-IsGuarded answer s called g)
    | inr answered ↦ simp answered g
  ]
  step-IsGuarded signs_in s g = record {
    subscribed = g.subscribed;
    configured = g.configured;
    authenticated = λ ready azure. let (_, token) = g.authenticated ready azure in (refl, token);
    settled = g.settled;
    answered = g.answered;
  }
  step-IsGuarded renders s g = renders-IsGuarded s g
  step-IsGuarded (acquires accounts silent popup) s g =
      elim (Bool-cases (renders_acquire_token s)) [
        | inl shown ↦
            rw shown (after_acquire-IsGuarded accounts silent popup s (ground (arith, shown)) g)
        | inr hidden ↦ rw hidden g
      ]
  step-IsGuarded (overview_sends signal) s g = overview_sent-IsGuarded signal s.streams s refl g
  step-IsGuarded (rollout_sends signal) s g = rollout_sent-IsGuarded signal s.streams s refl g

  IsGuarded-fold :
      (events : List Event) (s : Startup)
      → IsGuarded s
      → IsGuarded (fold (step utf8_to_base64 stringify) events s)
  IsGuarded-fold [] s g = g
  IsGuarded-fold (e ∷ events) s g = IsGuarded-fold events _ (step-IsGuarded e s g)

everything_loaded-guarded :
    (s : Startup) → IsGuarded s → everything_loaded (loading_state s) ≡ s.page.overview_loaded
unfolding everything_loaded loading_state
everything_loaded-guarded s g = ground (arith, g.configured, g.authenticated, g.settled)

module _ (utf8_to_base64 : String → String) (stringify : String → ℕ → String → String) where
  -- Whatever happens from the start of the page on: the two streams run exactly if the sign-in is
  -- settled; it is settled only once the configuration is there and, where Azure is enabled, the user is
  -- authenticated and the headers of the requests carry a token; no overview is loaded before that; and
  -- so everything counts as loaded exactly if the overview does.
  pub steps-IsGuarded :
      (title : String) (events : List Event)
      → IsGuarded (fold (step utf8_to_base64 stringify) events (started title))
        × (everything_loaded
              (loading_state (fold (step utf8_to_base64 stringify) events (started title)))
            ≡ (fold (step utf8_to_base64 stringify) events (started title)).page.overview_loaded)
  steps-IsGuarded title events =
      let g = IsGuarded-fold utf8_to_base64 stringify events _ (started-IsGuarded title) in
      (g, everything_loaded-guarded _ g)
