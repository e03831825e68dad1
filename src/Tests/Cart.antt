-- ===== src/Tests/Cart.antt =====
-- The cart of planned actions on a few actions.
use mathlib.Core.List.{Memᴰ}
use kuberpult.Prelude.{◌≡◌, refl, [], ◌∷◌, ◌++◌, take, fold, arith}
use kuberpult.Store.Cart.{Cart, empty, add_action, append_action, delete_action, max_batch_actions}
use kuberpult.Store.Cart.Invariant.{IsValid, adds, deletes, change, changes-IsValid}
use kuberpult.Store.Cart.Planning.{first_per_slot, append_action-eq-take}
use kuberpult.Store.Cart.Deletion.{delete_action-add_action, add_action-delete_action}
use kuberpult.Tests.Data.{deploying, locking, text_of, compare_texts}

empty-IsValid : IsValid empty
empty-IsValid = record { within = omega arith; distinct = tt }

changes-IsValid_example : IsValid (
    fold
      (change text_of compare_texts)
      (adds (deploying "north" 3) ∷ adds (deploying "north" 2) ∷ deletes (deploying "north" 3) ∷ [])
      empty)
changes-IsValid_example =
    changes-IsValid text_of compare_texts
      (adds (deploying "north" 3) ∷ adds (deploying "north" 2) ∷ deletes (deploying "north" 3) ∷ [])
      empty empty-IsValid

append_action-eq-take_example :
    (append_action (deploying "north" 3 ∷ deploying "north" 2 ∷ locking "south" ∷ []) empty).actions
    ≡ take max_batch_actions
        (first_per_slot [] (deploying "north" 3 ∷ deploying "north" 2 ∷ locking "south" ∷ []))
append_action-eq-take_example =
    append_action-eq-take (deploying "north" 3 ∷ deploying "north" 2 ∷ locking "south" ∷ []) empty
      (omega arith)

delete_action-add_action_example :
    (delete_action text_of compare_texts
      (locking "south")
      (add_action (locking "south") empty)).actions
    ≡ []
delete_action-add_action_example =
    delete_action-add_action text_of compare_texts (locking "south") empty refl tt

abbrev one_planned : Cart
one_planned = record empty { actions = deploying "north" 3 ∷ [] }

add_action-delete_action_example :
    (add_action
      (deploying "north" 3)
      (delete_action text_of compare_texts (deploying "north" 3) one_planned)).actions
    ≡ (delete_action text_of compare_texts (deploying "north" 3) one_planned).actions
      ++ deploying "north" 3 ∷ []
add_action-delete_action_example =
    add_action-delete_action text_of compare_texts (deploying "north" 3) one_planned
      (record { within = omega arith; distinct = (tt, tt) }) refl (Memᴰ.head refl)
