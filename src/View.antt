-- ===== src/View.antt =====
-- What a component renders: the elements, texts, links and buttons of its JSX, with the event that a
-- click on them, or typing into an input, raises. The class names, icons and keys of the elements are
-- left out.
pub mod Accepts
pub mod Offers
pub mod Results
pub mod Widgets
use kuberpult.Prelude.{
  ℕ, Ordering, String, Bool, true, false, Option, none, some, List, [], ◌∷◌, ◌++◌, map, flat_map,
  if◌then◌else◌,
}

mutual
  pub data Html (E : Type 0) : Type 0 where
    text_node : String → Html E
    element : (tag : String) (title : Option String) (on_click : Option E) → Children E → Html E
    button : (label : String) (disabled : Bool) (on_click : Option E) → Html E
    link : (title href : String) → Children E → Html E

  pub data Children (E : Type 0) : Type 0 where
    no_children : Children E
    child : Html E → Children E → Children E

-- The events that clicks can raise, in the order of the page.
unfoldable mutual
  pub offered : {E : Type 0} → Html E → List E
  offered (text_node s) = []
  offered (element tag title none hs) = offered_by hs
  offered (element tag title (some e) hs) = e ∷ offered_by hs
  offered (button label disabled none) = []
  offered (button label disabled (some e)) = if disabled then [] else e ∷ []
  offered (link title href hs) = offered_by hs

  pub offered_by : {E : Type 0} → Children E → List E
  offered_by no_children = []
  offered_by (child h hs) = offered h ++ offered_by hs

-- The texts, in the order of the page, with the labels of the buttons.
unfoldable mutual
  pub texts : {E : Type 0} → Html E → List String
  texts (text_node s) = s ∷ []
  texts (element tag title on_click hs) = texts_of hs
  texts (button label disabled e) = label ∷ []
  texts (link title href hs) = texts_of hs

  pub texts_of : {E : Type 0} → Children E → List String
  texts_of no_children = []
  texts_of (child h hs) = texts h ++ texts_of hs

module _ {E : Type 0} where
  abbrev pub children : List (Html E) → Children E
  children [] = no_children
  children (h ∷ hs) = child h (children hs)

  abbrev pub plain : String → List (Html E) → Html E
  plain tag hs = element tag none none (children hs)

  abbrev pub div : List (Html E) → Html E
  div = plain "div"

  abbrev pub span : List (Html E) → Html E
  span = plain "span"

  -- An element with a title.
  abbrev pub titled : String → String → List (Html E) → Html E
  titled tag title hs = element tag (some title) none (children hs)

  abbrev pub bold : String → Html E
  bold s = plain "b" (text_node s ∷ [])

  -- `null`, `''`, `undefined` or a component that renders none
  abbrev pub nothing : List (Html E)
  nothing = []

  -- `{text}`, where the text may be undefined
  abbrev pub text_nodes : Option String → List (Html E)
  text_nodes none = []
  text_nodes (some s) = text_node s ∷ []

  -- `condition && html`
  abbrev pub when : Bool → Html E → List (Html E)
  when b h = if b then h ∷ [] else []

-- What the language and its libraries make of texts, numbers and times, and the time of the last
-- render: `String`, `Date.toString`, `new Date(+s * 1000)`, `split('\n')[0]`, `substring(0, 8)`, `name[0].toUpperCase()`,
-- `endsWith('/')`, `encodeURIComponent`, `replace` of a placeholder, `trim`, `includes` and
-- `localeCompare`.
pub record Runtime : Type 0 where
  pub number_text : ℕ → String
  pub date_text : ℕ → String
  pub date_of_seconds : String → ℕ
  pub now : ℕ
  pub first_line : String → String
  pub commit_prefix : String → String
  pub first_upper : String → String
  pub ends_with_slash : String → Bool
  pub encode : String → String
  pub replace : (placeholder value text : String) → String
  pub trim : String → String
  pub includes : String → String → Bool
  pub locale_compare : String → String → Ordering
