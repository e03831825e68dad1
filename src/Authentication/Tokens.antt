-- ===== src/Authentication/Tokens.antt =====
-- Which headers the requests carry once the user counts as signed in.
use kuberpult.Prelude.{
  ◌≡◌, refl, String, true, false, Option, none, some, List, [], ◌∷◌, fold, All, arith,
}
use kuberpult.Store.Overview.{lookup}
use kuberpult.Authentication.{
  AzureAuthSub, FrontendConfigStore, Account, signed_out, use_azure_auth, acquire_token,
  provider_effect, headers_of,
}

-- What happens to the store: the provider is rendered, or `AcquireToken` has requested a token.
pub data Event : Type 0 where
  renders : FrontendConfigStore → Event
  acquires : List Account → (silent popup : Option String) → Event

module _ (utf8_to_base64 : String → String) where
  unfoldable pub step : Event → AzureAuthSub → AzureAuthSub
  unfolding provider_effect acquire_token
  step (renders c) s = provider_effect c s
  step (acquires accounts silent popup) s = acquire_token utf8_to_base64 accounts silent popup s

  -- The token that an event brings.
  abbrev pub token_of : Event → Option String
  token_of (acquires accounts (some token) popup) = some token
  token_of (acquires accounts none popup) = popup
  token_of (renders c) = none

  -- The token of the last request that succeeded.
  abbrev pub last_token : List Event → Option String → Option String
  last_token [] token = token
  last_token (e ∷ events) token =
      last_token events (elim (token_of e) [ none ↦ token | some t ↦ some t ])

-- Every configuration that is rendered, once it is loaded, has Azure enabled.
abbrev pub UsesAzure : Event → Type 0
UsesAzure (renders c) = c.config_ready ≡ true → use_azure_auth c.configs ≡ true
UsesAzure (acquires accounts silent popup) = Unit

-- The user counts as signed in exactly if there is a token, and then the requests carry it.
abbrev pub IsSignedInWith : Option String → AzureAuthSub → Type 0
IsSignedInWith none s = (s.auth_ready ≡ false) × (s.auth_header ≡ [])
IsSignedInWith (some token) s =
    (s.auth_ready ≡ true) × (lookup "Authorization" s.auth_header ≡ some token)

module _ (utf8_to_base64 : String → String) where
  step-IsSignedInWith :
      (e : Event) (token : Option String) (s : AzureAuthSub)
      → UsesAzure e
      → IsSignedInWith token s
      → IsSignedInWith
          (elim (token_of utf8_to_base64 e) [ none ↦ token | some t ↦ some t ])
          (step utf8_to_base64 e s)
  unfolding step provider_effect acquire_token headers_of
  step-IsSignedInWith (acquires accounts (some t) popup) token s u h = (refl, refl)
  step-IsSignedInWith (acquires accounts none (some t)) token s u h = (refl, refl)
  step-IsSignedInWith (acquires accounts none none) token s u h = h
  step-IsSignedInWith (renders c) none s u h = ground arith
  step-IsSignedInWith (renders c) (some t) s u h = ground arith

  -- If Azure is enabled in every configuration that is loaded, then after any course of events
  -- from the start the user counts as signed in exactly if some request for a token has succeeded,
  -- and then the header carries the token of the last request that did.
  pub steps-IsSignedInWith :
      (events : List Event)
      → All UsesAzure events
      → IsSignedInWith
          (last_token utf8_to_base64 events none)
          (fold (step utf8_to_base64) events signed_out)
  steps-IsSignedInWith events h = go events none signed_out h (refl, refl)
    where
      go :
          (events : List Event) (token : Option String) (s : AzureAuthSub)
          → All UsesAzure events
          → IsSignedInWith token s
          → IsSignedInWith
              (last_token utf8_to_base64 events token)
              (fold (step utf8_to_base64) events s)
      go [] token s h signed = signed
      go (e ∷ events) token s (u, h) signed =
          go events _ _ h (step-IsSignedInWith e token s u signed)
