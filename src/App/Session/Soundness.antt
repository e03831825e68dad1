-- ===== src/App/Session/Soundness.antt =====
-- What holds of the page between any two steps, and how the handlers of the components keep it while
-- they share one cart.
pub mod Handlers
pub mod Outside
pub mod Reached
use kuberpult.Prelude.{
  ℕ, ◌+◌, ◌≤◌, ◌<◌, ◌≡◌, refl, sym, ap, ◌∙◌, String, Bool, true, false, not, Option, none, some,
  List, length, length-append, All, arith, Bool-cases, inl, inr, if_both, ◌==◌, if◌then◌else◌,
  truthy, Option-cases, find,
}
use kuberpult.Api.{Application}
use kuberpult.Store.Cart.{Cart, append_action, add_action, show_snackbar_error, show_snackbar_warn}
use kuberpult.Store.Cart.Additions.{Adds}
use kuberpult.Store.Cart.Invariant.{
  IsValid, append_action-IsValid, delete_action-IsValid, add_action-IsValid,
}
use kuberpult.Store.Cart.Slots.{IsDistinct}
use kuberpult.Store.Dialog.{Params}
use kuberpult.View.{Runtime}
use kuberpult.App.Session.{Session, cart_of, set_cart, side_bar_of, set_side_bar, lane_of, set_lane}
use kuberpult.App.Session.Clicks.{refresh_environments, refresh_applications, set_params}
use kuberpult.App.Startup.Order.{IsGuarded}
use kuberpult.App.View.{Readers}
use kuberpult.LocksPage.{Table}
use kuberpult.SideBar.Apply.{SideBar, apply_message, send_batch, apply_actions, confirm}
use kuberpult.SideBar.Apply.Consistency.{IsConsistent}
use kuberpult.ServiceLane.Menu.{Lane}
use kuberpult.ServiceLane.Menu.Selection.{IsSelection}

-- The cart is valid and all requests can be sent; the sign-in and the streams are guarded; nothing is
-- sent before the sign-in is settled; no answer comes without a request; and no lane has an
-- environment selected twice.
pub record IsSound (s : Session) : Type 0 where
  pub consistent : IsConsistent (side_bar_of s)
  pub guarded : IsGuarded s.startup
  pub authorised : 0 < length s.sent → s.startup.auth.auth_ready ≡ true
  pub answered_sent : s.answered ≤ length s.sent
  pub selections : (app : String) → IsSelection (s.lanes app).selected_envs

-- What is planned is all that a cart's validity is about.
pub IsValid-actions : (a b : Cart) → a.actions ≡ b.actions → IsValid b → IsValid a
IsValid-actions a b e v = record { within = rw e v.within; distinct = rw e v.distinct }

IsGuarded-set_cart :
    (cart : Cart) (s : Session) → IsGuarded s.startup → IsGuarded (set_cart cart s).startup
IsGuarded-set_cart cart s g = record {
  subscribed = g.subscribed;
  configured = g.configured;
  authenticated = g.authenticated;
  settled = g.settled;
  answered = g.answered;
}

pub set_cart-IsSound :
    (cart : Cart) (s : Session) → IsValid cart → IsSound s → IsSound (set_cart cart s)
set_cart-IsSound cart s v o = record {
  consistent = record { cart_valid = v; sent_sendable = o.consistent.sent_sendable };
  guarded = IsGuarded-set_cart cart s o.guarded;
  authorised = o.authorised;
  answered_sent = o.answered_sent;
  selections = o.selections;
}

-- A handler of the side bar that sends nothing, or that sends where the sign-in is settled.
pub set_side_bar-IsSound :
    (b : SideBar) (s : Session)
    → IsConsistent b
    → (0 < length b.sent → s.startup.auth.auth_ready ≡ true)
    → s.answered ≤ length b.sent
    → IsSound s
    → IsSound (set_side_bar b s)
set_side_bar-IsSound b s c authorised answered o = record {
  consistent = record { cart_valid = c.cart_valid; sent_sendable = c.sent_sendable };
  guarded = IsGuarded-set_cart b.cart s o.guarded;
  authorised = authorised;
  answered_sent = answered;
  selections = o.selections;
}

-- A handler of the side bar that sends nothing.
pub quiet-IsSound :
    (b : SideBar) (s : Session)
    → IsConsistent b
    → b.sent ≡ s.sent
    → IsSound s
    → IsSound (set_side_bar b s)
quiet-IsSound b s c quiet o =
    set_side_bar-IsSound b s c (λ later. o.authorised (rw quiet at later))
      (rw quiet o.answered_sent) o

-- The rows of the tables of locks are no part of it.
pub tables-IsSound :
    (environments applications : Table) (s : Session)
    → IsSound s
    → IsSound (record s { environment_table = environments; application_table = applications })
tables-IsSound environments applications s o = record {
  consistent = record {
    cart_valid = o.consistent.cart_valid;
    sent_sendable = o.consistent.sent_sendable;
  };
  guarded = o.guarded;
  authorised = o.authorised;
  answered_sent = o.answered_sent;
  selections = o.selections;
}

pub set_lane-IsSound :
    (app : String) (lane : Lane) (s : Session)
    → IsValid lane.cart
    → IsSelection lane.selected_envs
    → IsSound s
    → IsSound (set_lane app lane s)
set_lane-IsSound app lane s v selection o = record {
  consistent = record { cart_valid = v; sent_sendable = o.consistent.sent_sendable };
  guarded = IsGuarded-set_cart lane.cart s o.guarded;
  authorised = o.authorised;
  answered_sent = o.answered_sent;
  selections = λ other. elim (Bool-cases (other == app)) [
    | inl own ↦ rw own selection
    | inr foreign ↦ rw foreign (o.selections other)
  ];
}

module _ (rt : Runtime) (readers : Readers) where
  pub refresh_environments-IsSound :
      (s : Session) → IsSound s → IsSound (refresh_environments rt readers s)
  unfolding refresh_environments
  refresh_environments-IsSound s o = record {
    consistent = o.consistent;
    guarded = o.guarded;
    authorised = o.authorised;
    answered_sent = o.answered_sent;
    selections = o.selections;
  }

  pub refresh_applications-IsSound :
      (s : Session) → IsSound s → IsSound (refresh_applications rt readers s)
  unfolding refresh_applications
  refresh_applications-IsSound s o = record {
    consistent = o.consistent;
    guarded = o.guarded;
    authorised = o.authorised;
    answered_sent = o.answered_sent;
    selections = o.selections;
  }

  pub set_params-IsSound :
      (params : Params) (s : Session) → IsSound s → IsSound (set_params rt readers params s)
  unfolding set_params
  set_params-IsSound params s o =
      let moved : IsSound (record s { params = params }) = record {
        consistent = o.consistent;
        guarded = o.guarded;
        authorised = o.authorised;
        answered_sent = o.answered_sent;
        selections = o.selections;
      } in
      if_both IsSound _ _ _ moved (refresh_applications-IsSound _ moved)
