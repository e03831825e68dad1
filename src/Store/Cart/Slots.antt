-- ===== src/Store/Cart/Slots.antt =====
-- What `addAction` means by a duplicate: two planned actions that claim the same slot. Most cases
-- have a slot for each thing that they act on; the deletion of an application lock has one for each
-- environment and lock id, whatever the application. The other cases claim no slot.
use kuberpult.Prelude.{
  String, ◌≡◌, refl, Bool, false, ◌&&◌, Option, none, some, List, [], ◌∷◌, ◌==◌, any, arith, eq_iff,
  All, ◌↔◌, sym, true, ap,
}
use kuberpult.Api.{
  Action, BatchAction, create_environment_lock, delete_environment_lock,
  create_environment_application_lock, delete_environment_application_lock, deploy,
  prepare_undeploy, create_environment,
}
use kuberpult.Store.Cart.{
  is_duplicate, creates_environment_lock, deletes_environment_lock, creates_application_lock,
  deletes_application_lock, deploys, undeploys, prepares_undeploy,
}

pub data Slot : Type 0 where
  environment_lock_creation : (environment : String) → Slot
  environment_lock_deletion : (environment lock_id : String) → Slot
  application_lock_creation : (application environment : String) → Slot
  application_lock_deletion : (environment lock_id : String) → Slot
  deployment : (application environment : String) → Slot
  undeployment : (application : String) → Slot
  undeploy_preparation : (application : String) → Slot

abbrev pub slot_of : Option Action → Option Slot
slot_of (some (create_environment_lock r)) = some (environment_lock_creation r.environment)
slot_of (some (delete_environment_lock r)) =
    some (environment_lock_deletion r.environment r.lock_id)
slot_of (some (create_environment_application_lock r)) =
    some (application_lock_creation r.application r.environment)
slot_of (some (delete_environment_application_lock r)) =
    some (application_lock_deletion r.environment r.lock_id)
slot_of (some (deploy r)) = some (deployment r.application r.environment)
slot_of (some (Action.undeploy r)) = some (undeployment r.application)
slot_of (some (prepare_undeploy r)) = some (undeploy_preparation r.application)
slot_of _ = none

-- Two actions that claim one slot.
abbrev pub Conflicts : BatchAction → BatchAction → Type 0
Conflicts a b = (s : Slot) × (slot_of a.action ≡ some s) × (slot_of b.action ≡ some s)

-- No two actions of the list claim one slot.
abbrev pub IsDistinct : List BatchAction → Type 0
IsDistinct [] = Unit
IsDistinct (a ∷ rest) = All (λ b. ¬ Conflicts a b) rest × IsDistinct rest

unfoldable pub eq_slot : Slot → Slot → Bool
eq_slot (environment_lock_creation a) (environment_lock_creation b) = a == b
eq_slot (environment_lock_deletion a b) (environment_lock_deletion c d) = a == c && b == d
eq_slot (application_lock_creation a b) (application_lock_creation c d) = a == c && b == d
eq_slot (application_lock_deletion a b) (application_lock_deletion c d) = a == c && b == d
eq_slot (deployment a b) (deployment c d) = a == c && b == d
eq_slot (undeployment a) (undeployment b) = a == b
eq_slot (undeploy_preparation a) (undeploy_preparation b) = a == b
eq_slot _ _ = false

-- Whether the member `act` of a cart claims the slot `s`.
unfoldable pub claims : Option Slot → Option Slot → Bool
claims (some s) (some t) = eq_slot t s
claims _ _ = false

abbrev pub conflicts : BatchAction → BatchAction → Bool
conflicts a b = claims (slot_of a.action) (slot_of b.action)

eq_slot_iff : (s t : Slot) → (eq_slot s t ≡ true) ↔ (s ≡ t)
unfolding eq_slot
eq_slot_iff (environment_lock_creation a) (environment_lock_creation b) = ground (arith, eq_iff a b)
eq_slot_iff (environment_lock_deletion a b) (environment_lock_deletion c d) =
    ground (arith, eq_iff a c, eq_iff b d)
eq_slot_iff (application_lock_creation a b) (application_lock_creation c d) =
    ground (arith, eq_iff a c, eq_iff b d)
eq_slot_iff (application_lock_deletion a b) (application_lock_deletion c d) =
    ground (arith, eq_iff a c, eq_iff b d)
eq_slot_iff (deployment a b) (deployment c d) = ground (arith, eq_iff a c, eq_iff b d)
eq_slot_iff (undeployment a) (undeployment b) = ground (arith, eq_iff a b)
eq_slot_iff (undeploy_preparation a) (undeploy_preparation b) = ground (arith, eq_iff a b)
eq_slot_iff s t = ground arith

pub claims_iff :
    (o p : Option Slot) → (claims o p ≡ true) ↔ ((s : Slot) × (o ≡ some s) × (p ≡ some s))
unfolding claims
claims_iff (some s) (some t) =
    (λ h. (s, refl, ap some ((eq_slot_iff t s).0 h)), λ (u, p, q). (eq_slot_iff t s).1 (cc))
claims_iff none p = ground arith
claims_iff o p = ground arith

-- The test on slots decides whether two actions conflict.
pub conflicts_iff : (a b : BatchAction) → (conflicts a b ≡ true) ↔ Conflicts a b
conflicts_iff a b = claims_iff (slot_of a.action) (slot_of b.action)

any_ext {ℓ} :
    {A : Type ℓ} (p q : A → Bool) → ((x : A) → p x ≡ q x) → (xs : List A) → any p xs ≡ any q xs
any_ext p q h [] = refl
any_ext p q h (x ∷ xs) = cc (h x, any_ext p q h xs)

-- Each callback of `addAction` tests whether a member of the cart claims the slot.
creates_environment_lock-eq :
    (env : String) (o : Option Action)
    → creates_environment_lock env o ≡ claims (some (environment_lock_creation env)) (slot_of o)
unfolding creates_environment_lock claims eq_slot
creates_environment_lock-eq env (some (create_environment_lock r)) = refl
creates_environment_lock-eq env o = ground arith

deletes_environment_lock-eq :
    (env lock_id : String) (o : Option Action)
    → deletes_environment_lock env lock_id o
      ≡ claims (some (environment_lock_deletion env lock_id)) (slot_of o)
unfolding deletes_environment_lock claims eq_slot
deletes_environment_lock-eq env lock_id (some (delete_environment_lock r)) = refl
deletes_environment_lock-eq env lock_id o = ground arith

creates_application_lock-eq :
    (app env : String) (o : Option Action)
    → creates_application_lock app env o
      ≡ claims (some (application_lock_creation app env)) (slot_of o)
unfolding creates_application_lock claims eq_slot
creates_application_lock-eq app env (some (create_environment_application_lock r)) = refl
creates_application_lock-eq app env o = ground arith

deletes_application_lock-eq :
    (env lock_id : String) (o : Option Action)
    → deletes_application_lock env lock_id o
      ≡ claims (some (application_lock_deletion env lock_id)) (slot_of o)
unfolding deletes_application_lock claims eq_slot
deletes_application_lock-eq env lock_id (some (delete_environment_application_lock r)) = refl
deletes_application_lock-eq env lock_id o = ground arith

deploys-eq :
    (app env : String) (o : Option Action)
    → deploys app env o ≡ claims (some (deployment app env)) (slot_of o)
unfolding deploys claims eq_slot
deploys-eq app env (some (deploy r)) = refl
deploys-eq app env o = ground arith

undeploys-eq :
    (app : String) (o : Option Action)
    → undeploys app o ≡ claims (some (undeployment app)) (slot_of o)
unfolding undeploys claims eq_slot
undeploys-eq app (some (Action.undeploy r)) = refl
undeploys-eq app o = ground arith

prepares_undeploy-eq :
    (app : String) (o : Option Action)
    → prepares_undeploy app o ≡ claims (some (undeploy_preparation app)) (slot_of o)
unfolding prepares_undeploy claims eq_slot
prepares_undeploy-eq app (some (prepare_undeploy r)) = refl
prepares_undeploy-eq app o = ground arith

-- An action without a slot conflicts with none.
no_slot : (acts : List BatchAction) → any (λ act. claims none (slot_of act.action)) acts ≡ false
unfolding claims
no_slot [] = refl
no_slot (act ∷ acts) = no_slot acts

-- The `switch` of `addAction` finds a duplicate exactly if a member of the cart claims the slot.
pub is_duplicate-eq :
    (o : Option Action) (acts : List BatchAction)
    → is_duplicate o acts ≡ any (λ act. claims (slot_of o) (slot_of act.action)) acts
unfolding is_duplicate claims eq_slot
is_duplicate-eq (some (create_environment_lock r)) acts =
    any_ext _ _ (λ act. creates_environment_lock-eq r.environment act.action) acts
is_duplicate-eq (some (delete_environment_lock r)) acts =
    any_ext _ _ (λ act. deletes_environment_lock-eq r.environment r.lock_id act.action) acts
is_duplicate-eq (some (create_environment_application_lock r)) acts =
    any_ext _ _ (λ act. creates_application_lock-eq r.application r.environment act.action) acts
is_duplicate-eq (some (delete_environment_application_lock r)) acts =
    any_ext _ _ (λ act. deletes_application_lock-eq r.environment r.lock_id act.action) acts
is_duplicate-eq (some (deploy r)) acts =
    any_ext _ _ (λ act. deploys-eq r.application r.environment act.action) acts
is_duplicate-eq (some (Action.undeploy r)) acts =
    any_ext _ _ (λ act. undeploys-eq r.application act.action) acts
is_duplicate-eq (some (prepare_undeploy r)) acts =
    any_ext _ _ (λ act. prepares_undeploy-eq r.application act.action) acts
is_duplicate-eq (some (create_environment r)) acts = sym (no_slot acts)
is_duplicate-eq o acts = sym (no_slot acts)
