-- ===== src/SideBar/Apply/Consistency.antt =====
-- Consistency of the cart and of the requests, over the events of the page.
use kuberpult.Prelude.{
  ◌≡◌, refl, ◌≤◌, String, Bool, true, false, Option, some, List, [], ◌∷◌, truthy, map, length, All,
  All-append, arith, fold, ap, suc, if_both, Ordering,
}
use kuberpult.Api.{Action, BatchAction, create_environment_lock}
use kuberpult.Store.Cart.{Cart, max_batch_actions}
use kuberpult.Store.Cart.Slots.{slot_of, Conflicts, IsDistinct}
use kuberpult.Store.Cart.Invariant.{IsValid, append_action-IsValid, delete_action-IsValid}
use kuberpult.SideBar.Apply.{
  SideBar, creates_lock, lock_creation_list, set_message, set_lock_id, update_actions_by,
  apply_message, send_batch, can_apply, confirm, Event, clicks_apply, cancels, types, confirms,
  plans, removes, succeeds, fails, step,
}

-- The assignments change neither the slot of an action nor whether it creates a lock.
abbrev pub KeepsSlots : (Option Action → Option Action) → Type 0
KeepsSlots f =
    (o : Option Action) → (slot_of (f o) ≡ slot_of o) × (creates_lock (f o) ≡ creates_lock o)

pub set_message-KeepsSlots : (message : String) → KeepsSlots (set_message message)
unfolding set_message
set_message-KeepsSlots message (some (create_environment_lock r)) = (refl, refl)
set_message-KeepsSlots message o = (refl, refl)

pub set_lock_id-KeepsSlots : (lock_id : String) → KeepsSlots (set_lock_id lock_id)
unfolding set_lock_id
set_lock_id-KeepsSlots lock_id (some (create_environment_lock r)) = (refl, refl)
set_lock_id-KeepsSlots lock_id o = (refl, refl)

abbrev pub each : (Option Action → Option Action) → List BatchAction → List BatchAction
each f = map (λ (a : BatchAction). record a { action = f a.action })

module _ (f : Option Action → Option Action) (keeps : KeepsSlots f) where
  apart :
      (a : BatchAction) (xs : List BatchAction)
      → All (λ b. ¬ Conflicts a b) xs
      → All (λ b. ¬ Conflicts (record a { action = f a.action }) b) (each f xs)
  apart a [] h = tt
  apart a (b ∷ xs) (p, h) =
      (λ (s, q, r). p (s, cc ((keeps a.action).0), cc ((keeps b.action).0)), apart a xs h)

  IsDistinct-each : (xs : List BatchAction) → IsDistinct xs → IsDistinct (each f xs)
  IsDistinct-each [] d = tt
  IsDistinct-each (a ∷ xs) (h, d) = (apart a xs h, IsDistinct-each xs d)

  pub length-each : (xs : List BatchAction) → length (each f xs) ≡ length xs
  length-each [] = refl
  length-each (a ∷ xs) = ap suc (length-each xs)

  pub lock_creation_list-each :
      (xs : List BatchAction)
      → length (lock_creation_list (each f xs)) ≡ length (lock_creation_list xs)
  lock_creation_list-each [] = refl
  lock_creation_list-each (a ∷ xs) = ground (arith, (keeps a.action).1, lock_creation_list-each xs)

  update_actions_by-IsValid : (cart : Cart) → IsValid cart → IsValid (update_actions_by f cart)
  update_actions_by-IsValid cart v = record {
    within = omega (arith, length-each cart.actions, v.within);
    distinct = IsDistinct-each cart.actions v.distinct;
  }

-- A request that the server can take: at most a hundred actions, none twice.
abbrev pub IsSendable : List BatchAction → Type 0
IsSendable request = (length request ≤ max_batch_actions) × IsDistinct request

pub record IsConsistent (s : SideBar) : Type 0 where
  pub cart_valid : IsValid s.cart
  pub sent_sendable : All IsSendable s.sent

apply_message-IsConsistent : (s : SideBar) → IsConsistent s → IsConsistent (apply_message s)
unfolding apply_message
apply_message-IsConsistent s c =
    if_both IsConsistent (truthy s.lock_message) _ s
      (record {
        cart_valid =
            update_actions_by-IsValid (set_message s.lock_message)
              (set_message-KeepsSlots s.lock_message) s.cart c.cart_valid;
        sent_sendable = c.sent_sendable;
      })
      c

send_batch-IsConsistent :
    (id : String) (s : SideBar) → IsConsistent s → IsConsistent (send_batch id s)
unfolding send_batch
send_batch-IsConsistent id s c =
    let v =
      update_actions_by-IsValid (set_lock_id id) (set_lock_id-KeepsSlots id) s.cart c.cart_valid in
    record {
      cart_valid = v;
      sent_sendable = All-append IsSendable s.sent _ c.sent_sendable ((v.within, v.distinct), tt);
    }

confirm-IsConsistent :
    (ready : Bool) (id : String) (s : SideBar) → IsConsistent s → IsConsistent (confirm ready id s)
unfolding confirm
confirm-IsConsistent true id s c =
    if_both IsConsistent s.show_confirmation_dialog (send_batch id (apply_message s)) s
      (send_batch-IsConsistent id (apply_message s) (apply_message-IsConsistent s c)) c
confirm-IsConsistent false id s c =
    if_both IsConsistent s.show_confirmation_dialog (apply_message s) s
      (apply_message-IsConsistent s c) c

module _ (stringify : BatchAction → String) (locale_compare : String → String → Ordering) where
  pub step-IsConsistent :
      (e : Event) (s : SideBar) → IsConsistent s → IsConsistent (step stringify locale_compare e s)
  unfolding step
  step-IsConsistent clicks_apply s c =
      if_both IsConsistent (can_apply s) (record s { show_confirmation_dialog = true }) s
        (record { cart_valid = c.cart_valid; sent_sendable = c.sent_sendable }) c
  step-IsConsistent cancels s c = record {
    cart_valid = c.cart_valid;
    sent_sendable = c.sent_sendable;
  }
  step-IsConsistent (types message) s c = record {
    cart_valid = c.cart_valid;
    sent_sendable = c.sent_sendable;
  }
  step-IsConsistent (confirms ready id) s c = confirm-IsConsistent ready id s c
  step-IsConsistent (plans actions) s c = record {
    cart_valid = append_action-IsValid actions s.cart c.cart_valid;
    sent_sendable = c.sent_sendable;
  }
  step-IsConsistent (removes a) s c = record {
    cart_valid = delete_action-IsValid stringify locale_compare a s.cart c.cart_valid;
    sent_sendable = c.sent_sendable;
  }
  step-IsConsistent succeeds s c = record {
    cart_valid = record { within = omega arith; distinct = tt };
    sent_sendable = c.sent_sendable;
  }
  step-IsConsistent (fails code message) s c = record {
    cart_valid = record { within = c.cart_valid.within; distinct = c.cart_valid.distinct };
    sent_sendable = c.sent_sendable;
  }

  -- From a valid cart and requests that could be sent, whatever is typed and clicked in the side bar,
  -- planned actions are removed, actions are added, one or many at once, and requests succeed or fail, in
  -- any order, the cart stays valid, and every request that is sent has at most a hundred actions, of
  -- which no two claim one slot.
  pub steps-IsConsistent :
      (events : List Event) (s : SideBar)
      → IsConsistent s
      → IsConsistent (fold (step stringify locale_compare) events s)
  steps-IsConsistent [] s c = c
  steps-IsConsistent (e ∷ events) s c =
      steps-IsConsistent events (step stringify locale_compare e s) (step-IsConsistent e s c)
