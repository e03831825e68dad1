-- ===== src/App/Session/Soundness/Reached.antt =====
-- The page between any two steps of a run.
use kuberpult.Prelude.{
  ℕ, ◌≡◌, String, Option, List, length, arith, All, All-mem, ◌<◌, true, is_some,
}
use kuberpult.Store.Dialog.{Params}
use kuberpult.Store.Overview.{lookup}
use kuberpult.View.{Runtime, offered}
use kuberpult.App.Session.{Session, clicked, session_started}
use kuberpult.App.Session.Clicks.{frontend_of}
use kuberpult.App.Session.Soundness.{IsSound}
use kuberpult.App.Session.Soundness.Handlers.{Harmless, Harmless-Covers}
use kuberpult.App.Session.Soundness.Outside.{happen-IsSound}
use kuberpult.App.Session.World.{Step, happens, clicks, Reach, here, next}
use kuberpult.Authentication.{use_azure_auth}
use kuberpult.App.Startup.Order.{started-IsGuarded}
use kuberpult.App.View.{Readers}
use kuberpult.App.View.Accepted.{app-All}

session_started-IsSound :
    (title : String) (params : Params) (href : String) → IsSound (session_started title params href)
unfolding session_started
session_started-IsSound title params href = record {
  consistent = record {
    cart_valid = record { within = omega arith; distinct = tt };
    sent_sendable = tt;
  };
  guarded = started-IsGuarded title;
  authorised = λ later. ground (arith, later);
  answered_sent = omega arith;
  selections = λ app. tt;
}

module _ (rt : Runtime) (readers : Readers) (utf8_to_base64 : String → String)
    (stringify : String → ℕ → String → String) (search_of : Params → Option String)
    (choose : String → List String → List String) where
  step-IsSound :
      (s t : Session)
      → Step rt readers utf8_to_base64 stringify search_of choose s t
      → IsSound s
      → IsSound t
  step-IsSound s t (happens e same) o =
      rw same (happen-IsSound rt readers utf8_to_base64 stringify e s o)
  step-IsSound s t (clicks page e text id rendered offers same) o =
      let frontend = frontend_of rt readers search_of s in
      let harmless : All (Harmless rt readers choose) (offered page) =
        app-All (Harmless rt readers choose) rt readers clicked (Harmless-Covers rt readers choose)
          frontend page rendered in
      rw same (All-mem (Harmless rt readers choose) offers harmless text id s o)

  -- Whatever is clicked on the page that is shown and whatever happens to it, in any order, from its
  -- start: the cart is valid; every request that was sent has at most a hundred actions, no two for one
  -- slot; the sign-in and the streams are guarded; nothing was sent before the sign-in was settled; there
  -- are at most as many answers as requests; and no lane has an environment selected twice.
  pub Reach-IsSound :
      (title : String) (params : Params) (href : String) (s : Session)
      → Reach rt readers utf8_to_base64 stringify search_of choose
          (session_started title params href)
          s
      → IsSound s
  Reach-IsSound title params href s here = session_started-IsSound title params href
  Reach-IsSound title params href s (next run last) =
      step-IsSound _ s last (Reach-IsSound title params href _ run)

  -- If a page that runs from its start has sent a request and signs in with Azure, then its user is
  -- authenticated and the headers of its requests have a token.
  pub Reach-authenticated :
      (title : String) (params : Params) (href : String) (s : Session)
      → Reach rt readers utf8_to_base64 stringify search_of choose
          (session_started title params href)
          s
      → 0 < length s.sent
      → use_azure_auth s.startup.config.configs ≡ true
      → (s.startup.is_authenticated ≡ true)
        × (is_some (lookup "Authorization" s.startup.auth.auth_header) ≡ true)
  Reach-authenticated title params href s run later azure =
      let o = Reach-IsSound title params href s run in
      o.guarded.authenticated (o.authorised later) azure
