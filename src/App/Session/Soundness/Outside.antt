-- ===== src/App/Session/Soundness/Outside.antt =====
-- What the outside world keeps.
use kuberpult.Prelude.{
  ℕ, ◌+◌, ◌≡◌, refl, String, ◌&&◌, not, Option, [], length, arith, Bool-cases, inl, inr, if_both,
  if◌then◌else◌, ltb, ◌==◌,
}
use kuberpult.Store.Dialog.{Params}
use kuberpult.View.{Runtime}
use kuberpult.App.Session.{Session, cart_of, side_bar_of, set_side_bar}
use kuberpult.App.Session.World.{
  Outside, starts, succeeds, fails, shows_snackbar, renders_locks, reads_releases, unmounts_lane,
  navigates, brings_overview, is_locks_route, refresh, after_start, open_tables, navigate_to,
  happen,
}
use kuberpult.App.Session.Soundness.{
  IsSound, IsValid-actions, set_cart-IsSound, quiet-IsSound, tables-IsSound, set_params-IsSound,
  refresh_environments-IsSound, refresh_applications-IsSound,
}
use kuberpult.App.Startup.{Startup}
use kuberpult.App.Startup
use kuberpult.App.Startup.Carried.{step-actions, step-auth_ready}
use kuberpult.App.Startup.Order.{step-IsGuarded}
use kuberpult.App.View.{Readers}
use kuberpult.LocksPage.{opened}
use kuberpult.Navigation.{Route}
use kuberpult.SideBar.Apply.{SideBar, batch_succeeded, batch_failed, step}
use kuberpult.SideBar.Apply
use kuberpult.SideBar.Apply.Consistency.{IsConsistent, step-IsConsistent}

succeeded-sent : (b : SideBar) → (batch_succeeded b).sent ≡ b.sent
unfolding batch_succeeded
succeeded-sent b = refl

failed-sent : (code : ℕ) (text : String) (b : SideBar) → (batch_failed code text b).sent ≡ b.sent
unfolding batch_failed
failed-sent code text b = refl

module _ (rt : Runtime) (readers : Readers) (utf8_to_base64 : String → String)
    (stringify : String → ℕ → String → String) where
  succeeded-IsConsistent :
      (s : Session) → IsSound s → IsConsistent (batch_succeeded (side_bar_of s))
  unfolding step
  succeeded-IsConsistent s o =
      step-IsConsistent readers.stringify rt.locale_compare Apply.succeeds (side_bar_of s)
        o.consistent

  failed-IsConsistent :
      (code : ℕ) (text : String) (s : Session)
      → IsSound s
      → IsConsistent (batch_failed code text (side_bar_of s))
  unfolding step
  failed-IsConsistent code text s o =
      step-IsConsistent readers.stringify rt.locale_compare (Apply.fails code text) (side_bar_of s)
        o.consistent

  refresh-IsSound :
      (s : Session) → IsSound s → IsSound (refresh rt readers utf8_to_base64 stringify s)
  refresh-IsSound s o =
      refresh_applications-IsSound rt readers _ (refresh_environments-IsSound rt readers s o)

  after_start-IsSound :
      (e : Startup.Event) (s : Session)
      → IsSound s
      → IsSound (after_start rt readers utf8_to_base64 stringify e s)
  unfolding after_start
  after_start-IsSound e s o =
      let moved : IsSound
          (record s { startup = Startup.step utf8_to_base64 stringify e s.startup }) =
        record {
          consistent = record {
            cart_valid =
                IsValid-actions _ (cart_of s) (step-actions utf8_to_base64 stringify e s.startup)
                  o.consistent.cart_valid;
            sent_sendable = o.consistent.sent_sendable;
          };
          guarded = step-IsGuarded utf8_to_base64 stringify e s.startup o.guarded;
          authorised =
              λ later. step-auth_ready utf8_to_base64 stringify e s.startup (o.authorised later);
          answered_sent = o.answered_sent;
          selections = o.selections;
        } in
      if_both IsSound (brings_overview e s.startup.streams) _ _ (refresh-IsSound _ moved) moved

  moved-IsSound :
      (route : Option Route) (params : Params) (last_part href : String) (s : Session)
      → IsSound s
      → IsSound (record s { route = route; params = params; last_part = last_part; href = href })
  moved-IsSound route params last_part href s o = record {
    consistent = o.consistent;
    guarded = o.guarded;
    authorised = o.authorised;
    answered_sent = o.answered_sent;
    selections = o.selections;
  }

  navigate_to-IsSound :
      (route : Option Route) (params : Params) (last_part href : String) (s : Session)
      → IsSound s
      → IsSound (navigate_to rt readers utf8_to_base64 stringify route params last_part href s)
  unfolding navigate_to open_tables
  navigate_to-IsSound route params last_part href s o =
      if_both IsSound (is_locks_route route && not (is_locks_route s.route)) _ _
        (refresh-IsSound _ (
          tables-IsSound (opened []) (opened []) _ (moved-IsSound route params last_part href s o)))
        (set_params-IsSound rt readers params _ (moved-IsSound route s.params last_part href s o))

  -- An answer to a request, if there is one that has none yet.
  answer-IsSound :
      (b : SideBar) (s : Session)
      → IsConsistent b
      → b.sent ≡ s.sent
      → IsSound s
      → IsSound (
          if ltb s.answered (length s.sent)
          then record (set_side_bar b s) { answered = s.answered + 1 }
          else s)
  answer-IsSound b s c quiet o = elim (Bool-cases (ltb s.answered (length s.sent))) [
    | inr none_open ↦ rw none_open o
    | inl waits ↦
        let answered = quiet-IsSound b s c quiet o in
        rw waits (record {
          consistent = answered.consistent;
          guarded = answered.guarded;
          authorised = answered.authorised;
          answered_sent = rw quiet (ground (arith, waits));
          selections = answered.selections;
        })
  ]

  unmount-IsSound :
      (app : String) (s : Session)
      → IsSound s
      → IsSound (happen rt readers utf8_to_base64 stringify (unmounts_lane app) s)
  unfolding happen
  unmount-IsSound app s o = record {
    consistent = o.consistent;
    guarded = o.guarded;
    authorised = o.authorised;
    answered_sent = o.answered_sent;
    selections = λ other. elim (Bool-cases (other == app)) [
      | inl own ↦ rw own tt
      | inr foreign ↦ rw foreign (o.selections other)
    ];
  }

  pub happen-IsSound :
      (e : Outside) (s : Session)
      → IsSound s
      → IsSound (happen rt readers utf8_to_base64 stringify e s)
  unfolding happen
  happen-IsSound (starts e) s o = after_start-IsSound e s o
  happen-IsSound succeeds s o =
      answer-IsSound (batch_succeeded (side_bar_of s)) s (succeeded-IsConsistent s o)
        (succeeded-sent _) o
  happen-IsSound (fails code text) s o =
      answer-IsSound (batch_failed code text (side_bar_of s)) s (failed-IsConsistent code text s o)
        (failed-sent code text _) o
  happen-IsSound shows_snackbar s o =
      set_cart-IsSound _ s (IsValid-actions _ (cart_of s) refl o.consistent.cart_valid) o
  happen-IsSound renders_locks s o = refresh-IsSound s o
  happen-IsSound (reads_releases app) s o = record {
    consistent = record {
      cart_valid = IsValid-actions _ (cart_of s) refl o.consistent.cart_valid;
      sent_sendable = o.consistent.sent_sendable;
    };
    guarded = record {
      subscribed = o.guarded.subscribed;
      configured = o.guarded.configured;
      authenticated = o.guarded.authenticated;
      settled = o.guarded.settled;
      answered = o.guarded.answered;
    };
    authorised = o.authorised;
    answered_sent = o.answered_sent;
    selections = o.selections;
  }
  happen-IsSound (unmounts_lane app) s o = unmount-IsSound app s o
  happen-IsSound (navigates route params last_part href) s o =
      navigate_to-IsSound route params last_part href s o
