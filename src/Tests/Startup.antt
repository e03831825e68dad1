-- ===== src/Tests/Startup.antt =====
-- The start of a page that signs in with Azure.
use kuberpult.Prelude.{ℕ, ◌≡◌, refl, String, true, none, some, List, [], ◌∷◌, fold}
use kuberpult.Authentication.{provider_effect, acquire_token}
use kuberpult.App.{message, failure, everything_loaded, receive, overview_handlers}
use kuberpult.App.Startup.{
  Event, answers, signs_in, renders, acquires, overview_sends, rollout_sends, started, step,
  loading_state, overview_sent, rollout_sent, config_answers, after_acquire, subscribe,
  document_title,
}
use kuberpult.App.Startup.Order.{IsGuarded, steps-IsGuarded}
use kuberpult.Tests.Data.{overview}
use kuberpult.Tests.Runs.{config}

abbrev as_json : String → ℕ → String → String
as_json msg code text = text

abbrev course : List Event
course =
    renders
    ∷ overview_sends (message overview)
    ∷ answers (some config.configs)
    ∷ renders
    ∷ acquires [] (some "early") none
    ∷ signs_in
    ∷ acquires [] none (some "token")
    ∷ rollout_sends (failure 14 "gone")
    ∷ overview_sends (message overview)
    ∷ []

steps-IsGuarded_example :
    IsGuarded (fold (step (λ s. s) as_json) course (started "kuberpult"))
    × (everything_loaded (loading_state (fold (step (λ s. s) as_json) course (started "kuberpult")))
        ≡ (fold (step (λ s. s) as_json) course (started "kuberpult")).page.overview_loaded)
steps-IsGuarded_example = steps-IsGuarded (λ s. s) as_json "kuberpult" course

-- At the end of this course everything is loaded, and the window has its name.
course_loads :
    (everything_loaded (loading_state (fold (step (λ s. s) as_json) course (started "kuberpult")))
      ≡ true)
    × ((fold (step (λ s. s) as_json) course (started "kuberpult")).title ≡ "Kuberpult v1")
unfolding everything_loaded loading_state step started overview_sent rollout_sent provider_effect
    config_answers after_acquire subscribe acquire_token receive overview_handlers document_title
course_loads = (refl, refl)
