-- ===== src/Pages/Markup.antt =====
-- The elements that the components return. Class names, sizes and layout are left out; `FormattedMessage`
-- and the texts of `useFormatedMessage` are the keys of their messages. Of antd's components, an
-- element keeps its name and the properties that carry text, handlers or rules; a `Card` that is
-- loading and a `Modal` that is not visible do not show what is inside, as antd documents.
pub mod Handlers
use webca.Common.{ℕ, String, Bool, Option, List, [], ◌∷◌, ◌++◌, is_some, if◌then◌else◌}
use webca.Common.Dict.{Dict, lookup}
use webca.Translations.En.{en_us}
use webca.Pages.Gesture.{Gesture}

-- A text as it is, or the message of a key.
pub data Caption : Type 0 where
  plain : String → Caption
  translated : String → Caption

-- A rule of a `Form.Item`; the key is that of its message.
pub record Rule : Type 0 where
  pub required : Bool
  pub type : Option String
  pub min : Option ℕ
  pub message : String

pub record Choice : Type 0 where
  pub id : String
  pub text : Caption

-- A handler without an argument, one of a text, and `onFinish` of a form's values.
pub data Property : Type 0 where
  named : String → Caption → Property
  flag : String → Bool → Property
  rules : List Rule → Property
  options : List Choice → Property
  on_click : List Gesture → Property
  on_text : String → (String → List Gesture) → Property
  on_values : (Dict → List Gesture) → Property

mutual
  pub data Node : Type 0 where
    nothing : Node
    text : String → Node
    message : String → Node
    date : String → Node
    element : String → List Property → Nodes → Node
    -- A property that holds elements, such as `title`.
    slot : String → Nodes → Node
    card modal : Bool → Nodes → Node

  pub data Nodes : Type 0 where
    empty : Nodes
    cons : Node → Nodes → Nodes

abbrev pub nodes : List Node → Nodes
nodes [] = empty
nodes (n ∷ ns) = cons n (nodes ns)

abbrev pub tag : String → List Property → List Node → Node
tag name props inside = element name props (nodes inside)

-- `xs.map(f)` among the children.
abbrev pub each {ℓ} : {A : Type ℓ} → (A → Node) → List A → Nodes
each f [] = empty
each f (x ∷ xs) = cons (f x) (each f xs)

-- The keys without a message.
unfoldable pub missing : String → List String
unfolding lookup en_us
missing key = if is_some (lookup key en_us) then [] else key ∷ []

abbrev pub missing_caption : Caption → List String
missing_caption (plain s) = []
missing_caption (translated key) = missing key

abbrev pub missing_rules : List Rule → List String
missing_rules [] = []
missing_rules (r ∷ rs) = missing r.message ++ missing_rules rs

abbrev pub missing_options : List Choice → List String
missing_options [] = []
missing_options (o ∷ os) = missing_caption o.text ++ missing_options os

abbrev pub missing_properties : List Property → List String
missing_properties [] = []
missing_properties (named name caption ∷ ps) = missing_caption caption ++ missing_properties ps
missing_properties (rules rs ∷ ps) = missing_rules rs ++ missing_properties ps
missing_properties (options os ∷ ps) = missing_options os ++ missing_properties ps
missing_properties (_ ∷ ps) = missing_properties ps

-- The keys without a message among all that an element shows, in their order.
unfoldable mutual
  pub untranslated : Node → List String
  untranslated nothing = []
  untranslated (text s) = []
  untranslated (message key) = missing key
  untranslated (date s) = []
  untranslated (element name props inside) = missing_properties props ++ all_untranslated inside
  untranslated (slot name inside) = all_untranslated inside
  untranslated (card loading inside) = if loading then [] else all_untranslated inside
  untranslated (modal visible inside) = if visible then all_untranslated inside else []

  pub all_untranslated : Nodes → List String
  all_untranslated empty = []
  all_untranslated (cons n ns) = untranslated n ++ all_untranslated ns

-- Every gesture that the handlers of the properties lead to has the property `P`.
abbrev pub Every : (Gesture → Type 0) → List Gesture → Type 0
Every P [] = Unit
Every P (g ∷ gs) = P g × Every P gs

abbrev pub PropertyOffers : (Gesture → Type 0) → Property → Type 0
PropertyOffers P (on_click gs) = Every P gs
PropertyOffers P (on_text name f) = (s : String) → Every P (f s)
PropertyOffers P (on_values f) = (values : Dict) → Every P (f values)
PropertyOffers P _ = Unit

abbrev pub PropertiesOffer : (Gesture → Type 0) → List Property → Type 0
PropertiesOffer P [] = Unit
PropertiesOffer P (p ∷ ps) = PropertyOffers P p × PropertiesOffer P ps

-- Every gesture that an element offers has the property `P`.
unfoldable mutual
  pub Offers : (Gesture → Type 0) → Node → Type 0
  Offers P (element name props inside) = PropertiesOffer P props × AllOffer P inside
  Offers P (slot name inside) = AllOffer P inside
  Offers P (card loading inside) = if loading then Unit else AllOffer P inside
  Offers P (modal visible inside) = if visible then AllOffer P inside else Unit
  Offers P _ = Unit

  pub AllOffer : (Gesture → Type 0) → Nodes → Type 0
  AllOffer P empty = Unit
  AllOffer P (cons n ns) = Offers P n × AllOffer P ns
