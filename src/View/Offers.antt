-- ===== src/View/Offers.antt =====
-- The events of a page, from those of its parts.
use kuberpult.Prelude.{
  All, ◌≡◌, refl, ap, sym, ◌∙◌, List, [], ◌∷◌, ◌++◌, map, flat_map, append_assoc,
}
use kuberpult.Store.Overview.{Result, returns}
use kuberpult.View.Results.{map_result, each}
use kuberpult.View.{Html, offered, offered_by, children}

module _ {E : Type 0} where
  pub offered_by-children : (hs : List (Html E)) → offered_by (children hs) ≡ flat_map offered hs
  unfolding offered
  offered_by-children [] = refl
  offered_by-children (h ∷ hs) = ap (λ es. offered h ++ es) (offered_by-children hs)

  pub offered_by-map {ℓ} :
      {A : Type ℓ} (f : A → Html E) (xs : List A)
      → offered_by (children (map f xs)) ≡ flat_map (λ x. offered (f x)) xs
  unfolding offered
  offered_by-map f [] = refl
  offered_by-map f (x ∷ xs) = ap (λ es. offered (f x) ++ es) (offered_by-map f xs)

  pub offered_by-append :
      (xs ys : List (Html E))
      → offered_by (children (xs ++ ys)) ≡ offered_by (children xs) ++ offered_by (children ys)
  unfolding offered
  offered_by-append [] ys = refl
  offered_by-append (x ∷ xs) ys =
      ap (λ es. offered x ++ es) (offered_by-append xs ys)
      ∙ sym (append_assoc (offered x) (offered_by (children xs)) (offered_by (children ys)))

  -- What is returned offers these events.
  abbrev pub Offers : Result (Html E) → List E → Type 0
  Offers r es = (h : Html E) × (r ≡ returns h) × (offered h ≡ es)

  abbrev pub OffersAll : Result (List (Html E)) → List E → Type 0
  OffersAll r es = (hs : List (Html E)) × (r ≡ returns hs) × (offered_by (children hs) ≡ es)

  pub Offers-map_result :
      (f : List (Html E) → Html E) (r : Result (List (Html E))) (es ds : List E)
      → OffersAll r es
      → ((hs : List (Html E)) → offered_by (children hs) ≡ es → offered (f hs) ≡ ds)
      → Offers (map_result f r) ds
  Offers-map_result f r es ds (hs, e, o) k = rw e (f hs, refl, k hs o)

  pub Offers-each :
      {A : Type 0} (f : A → Result (Html E)) (g : A → List E) (xs : List A)
      → All (λ x. Offers (f x) (g x)) xs
      → OffersAll (each f xs) (flat_map g xs)
  unfolding offered each
  Offers-each f g [] h = ([], refl, refl)
  Offers-each f g (x ∷ xs) ((y, e, o), h) =
      let (ys, es, os) = Offers-each f g xs h in (y ∷ ys, rw (each, e, es) refl, rw (o, os) refl)
