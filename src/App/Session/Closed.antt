-- ===== src/App/Session/Closed.antt =====
-- The page while nobody is signed in.
use kuberpult.Prelude.{
  ℕ, ◌≡◌, String, Bool, false, ◌&&◌, ◌||◌, not, Option, List, [], arith, All-mem,
}
use kuberpult.Store.Dialog.{Params}
use kuberpult.Store.Overview.{Result, returns}
use kuberpult.View.{Html, Runtime, offered}
use kuberpult.View.Widgets.{spinner}
use kuberpult.App.Session.{Session}
use kuberpult.App.Session.Clicks.{frontend_of}
use kuberpult.App.Session.World.{Outside, happen, Step, happens, clicks}
use kuberpult.App.View.{Readers, app}
use kuberpult.Authentication.{
  FrontendConfigStore, AzureAuthSub, azure_auth_provider, acquire_token_view, use_azure_auth,
}

-- Whether `AzureAuthProvider` shows its children.
abbrev pub is_open : Session → Bool
is_open s =
    s.startup.config.config_ready
    && (not (use_azure_auth s.startup.config.configs)
        || (s.startup.is_authenticated && s.startup.auth.auth_ready))

provider-closed :
    {E : Type 0} (c : FrontendConfigStore) (is_authenticated : Bool) (auth : AzureAuthSub)
    (rest : Result (Html E)) (page : Html E)
    → (c.config_ready && (not (use_azure_auth c.configs) || (is_authenticated && auth.auth_ready)))
      ≡ false
    → azure_auth_provider c is_authenticated auth rest ≡ returns page
    → offered page ≡ []
unfolding azure_auth_provider acquire_token_view spinner offered
provider-closed c is_authenticated auth rest page closed e = ground (arith, closed, e)

module _ (rt : Runtime) (readers : Readers) (utf8_to_base64 : String → String)
    (stringify : String → ℕ → String → String) (search_of : Params → Option String)
    (choose : String → List String → List String) where
  -- While there is no configuration yet, or while it asks for a sign-in with Azure and the user is not
  -- authenticated or has no token, nothing can be clicked: a step of the page is something that happens
  -- to it from outside.
  pub Step-closed :
      (s t : Session)
      → is_open s ≡ false
      → Step rt readers utf8_to_base64 stringify search_of choose s t
      → (e : Outside) × (t ≡ happen rt readers utf8_to_base64 stringify e s)
  unfolding frontend_of app
  Step-closed s t closed (happens e same) = (e, same)
  Step-closed s t closed (clicks page e text id rendered offers same) =
      let empty =
        provider-closed s.startup.config s.startup.is_authenticated s.startup.auth _ page closed
          rendered in
      absurd (All-mem (λ x. ⊥) offers (rw empty tt))
