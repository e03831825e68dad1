-- ===== src/View/Accepts.antt =====
-- Pages all of whose events have a property, from their parts.
use kuberpult.Prelude.{
  Bool, true, false, Option, none, some, List, [], ◌∷◌, ◌++◌, All, All-append, map, if◌then◌else◌,
}
use kuberpult.Store.Overview.{Result, returns, throws}
use kuberpult.View.{
  Html, text_node, element, button, link, Children, no_children, child, offered, offered_by,
  children, when,
}
use kuberpult.View.Results.{map_result, and_then, each}

module _ {E : Type 0} (Q : E → Type 0) where
  -- Every event of the page has the property, also those of its disabled buttons.
  abbrev mutual
    pub Accepts : Html E → Type 0
    Accepts (text_node s) = Unit
    Accepts (element tag title none hs) = AcceptsAll hs
    Accepts (element tag title (some e) hs) = Q e × AcceptsAll hs
    Accepts (button label disabled none) = Unit
    Accepts (button label disabled (some e)) = Q e
    Accepts (link title href hs) = AcceptsAll hs

    pub AcceptsAll : Children E → Type 0
    AcceptsAll no_children = Unit
    AcceptsAll (child h hs) = Accepts h × AcceptsAll hs

  mutual
    unfolding offered

    offered-Accepts : (h : Html E) → Accepts h → All Q (offered h)
    offered-Accepts (text_node s) a = tt
    offered-Accepts (element tag title none hs) a = offered_by-Accepts hs a
    offered-Accepts (element tag title (some e) hs) (q, a) = (q, offered_by-Accepts hs a)
    offered-Accepts (button label disabled none) a = tt
    offered-Accepts (button label true (some e)) q = tt
    offered-Accepts (button label false (some e)) q = (q, tt)
    offered-Accepts (link title href hs) a = offered_by-Accepts hs a

    offered_by-Accepts : (hs : Children E) → AcceptsAll hs → All Q (offered_by hs)
    offered_by-Accepts no_children a = tt
    offered_by-Accepts (child h hs) (a, as_) =
        All-append Q (offered h) (offered_by hs) (offered-Accepts h a) (offered_by-Accepts hs as_)

  pub All-offered : (h : Html E) → Accepts h → All Q (offered h)
  All-offered h a = offered-Accepts h a

  pub AcceptsAll-append :
      (xs ys : List (Html E))
      → AcceptsAll (children xs)
      → AcceptsAll (children ys)
      → AcceptsAll (children (xs ++ ys))
  AcceptsAll-append [] ys a b = b
  AcceptsAll-append (x ∷ xs) ys (p, a) b = (p, AcceptsAll-append xs ys a b)

  pub AcceptsAll-map {ℓ} :
      {A : Type ℓ} (f : A → Html E) (xs : List A)
      → ((x : A) → Accepts (f x))
      → AcceptsAll (children (map f xs))
  AcceptsAll-map f [] h = tt
  AcceptsAll-map f (x ∷ xs) h = (h x, AcceptsAll-map f xs h)

  pub AcceptsAll-when : (b : Bool) (h : Html E) → Accepts h → AcceptsAll (children (when b h))
  AcceptsAll-when true h a = (a, tt)
  AcceptsAll-when false h a = tt

  pub Accepts-if : (b : Bool) (h k : Html E) → Accepts h → Accepts k → Accepts (if b then h else k)
  Accepts-if true h k a b = a
  Accepts-if false h k a b = b

  -- What is rendered, if it is rendered without an error, has the property.
  abbrev pub AcceptsResult : Result (Html E) → Type 0
  AcceptsResult (throws message) = Unit
  AcceptsResult (returns h) = Accepts h

  abbrev pub AcceptsResults : Result (List (Html E)) → Type 0
  AcceptsResults (throws message) = Unit
  AcceptsResults (returns hs) = AcceptsAll (children hs)

  pub AcceptsResult-if :
      (b : Bool) (r s : Result (Html E))
      → AcceptsResult r
      → AcceptsResult s
      → AcceptsResult (if b then r else s)
  AcceptsResult-if true r s a b = a
  AcceptsResult-if false r s a b = b

  pub AcceptsResult-and_then :
      {A : Type 0} (r : Result A) (f : A → Result (Html E))
      → ((x : A) → AcceptsResult (f x))
      → AcceptsResult (and_then r f)
  AcceptsResult-and_then (throws message) f h = tt
  AcceptsResult-and_then (returns x) f h = h x

  -- A page around a page, and around several.
  pub AcceptsResult-map_result :
      (f : Html E → Html E) (r : Result (Html E))
      → AcceptsResult r
      → ((h : Html E) → Accepts h → Accepts (f h))
      → AcceptsResult (map_result f r)
  AcceptsResult-map_result f (throws message) a k = tt
  AcceptsResult-map_result f (returns h) a k = k h a

  pub AcceptsResults-map_result :
      (f : List (Html E) → Html E) (r : Result (List (Html E)))
      → AcceptsResults r
      → ((hs : List (Html E)) → AcceptsAll (children hs) → Accepts (f hs))
      → AcceptsResult (map_result f r)
  AcceptsResults-map_result f (throws message) a k = tt
  AcceptsResults-map_result f (returns hs) a k = k hs a

  pub AcceptsResults-and_then :
      (r : Result (List (Html E))) (f : List (Html E) → Result (Html E))
      → AcceptsResults r
      → ((hs : List (Html E)) → AcceptsAll (children hs) → AcceptsResult (f hs))
      → AcceptsResult (and_then r f)
  AcceptsResults-and_then (throws message) f a k = tt
  AcceptsResults-and_then (returns hs) f a k = k hs a

  AcceptsResults-child :
      (r : Result (Html E)) (s : Result (List (Html E)))
      → AcceptsResult r
      → AcceptsResults s
      → AcceptsResults (and_then r (λ y. map_result (λ ys. y ∷ ys) s))
  AcceptsResults-child (throws message) s a b = tt
  AcceptsResults-child (returns h) (throws message) a b = tt
  AcceptsResults-child (returns h) (returns hs) a b = (a, b)

  pub AcceptsResults-each :
      {A : Type 0} (f : A → Result (Html E)) (xs : List A)
      → ((x : A) → AcceptsResult (f x))
      → AcceptsResults (each f xs)
  unfolding each
  AcceptsResults-each f [] h = tt
  AcceptsResults-each f (x ∷ xs) h =
      AcceptsResults-child (f x) (each f xs) (h x) (AcceptsResults-each f xs h)

  -- What is shown of a value that may be missing.
  pub AcceptsAll-optional :
      {A : Type 0} (o : Option A) (f : A → List (Html E))
      → ((x : A) → AcceptsAll (children (f x)))
      → AcceptsAll (children (elim o [ none ↦ [] | some x ↦ f x ]))
  AcceptsAll-optional none f h = tt
  AcceptsAll-optional (some x) f h = h x
