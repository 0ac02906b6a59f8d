-- ===== src/Pages/Markup/Handlers.antt =====
-- The gestures that a single handler of an element can lead to.
use webca.Common.{◌≡◌, ◌⊎◌, inl, inr, String, true, false, List, [], ◌∷◌, if◌then◌else◌}
use webca.Common.Dict.{Dict}
use webca.Pages.Gesture.{Gesture}
use webca.Pages.Markup.{
  Node, Nodes, Property, nothing, text, message, date, element, slot, card, modal, empty, cons,
  named, flag, rules, options, on_click, on_text, on_values, Every, PropertyOffers, PropertiesOffer,
  Offers, AllOffer,
}

-- `g` is one of the gestures.
abbrev pub IsAmong : {A : Type 0} → A → List A → Type 0
IsAmong g [] = ⊥
IsAmong g (h ∷ hs) = (g ≡ h) ⊎ IsAmong g hs

abbrev pub IsHandled : Gesture → Property → Type 0
IsHandled g (on_click gs) = IsAmong g gs
IsHandled g (on_text name f) = (s : String) × IsAmong g (f s)
IsHandled g (on_values f) = (values : Dict) × IsAmong g (f values)
IsHandled g _ = ⊥

abbrev pub AnyHandles : Gesture → List Property → Type 0
AnyHandles g [] = ⊥
AnyHandles g (p ∷ ps) = IsHandled g p ⊎ AnyHandles g ps

-- A handler of the element, or of an element inside, leads to `g`.
unfoldable mutual
  pub IsOffered : Gesture → Node → Type 0
  IsOffered g (element name props inside) = AnyHandles g props ⊎ IsInside g inside
  IsOffered g (slot name inside) = IsInside g inside
  IsOffered g (card loading inside) = if loading then ⊥ else IsInside g inside
  IsOffered g (modal visible inside) = if visible then IsInside g inside else ⊥
  IsOffered g _ = ⊥

  pub IsInside : Gesture → Nodes → Type 0
  IsInside g empty = ⊥
  IsInside g (cons n ns) = IsOffered g n ⊎ IsInside g ns

module _ (P : Gesture → Type 0) {g : Gesture} where
  among : (gs : List Gesture) → Every P gs → IsAmong g gs → P g
  among [] k m = absurd m
  among (h ∷ hs) (k, ks) (inl same) = rw same k
  among (h ∷ hs) (k, ks) (inr m) = among hs ks m

  handled : (p : Property) → PropertyOffers P p → IsHandled g p → P g
  handled (named name caption) k m = absurd m
  handled (flag name b) k m = absurd m
  handled (rules rs) k m = absurd m
  handled (options os) k m = absurd m
  handled (on_click gs) k m = among gs k m
  handled (on_text name f) k (s, m) = among (f s) (k s) m
  handled (on_values f) k (values, m) = among (f values) (k values) m

  any_handled : (ps : List Property) → PropertiesOffer P ps → AnyHandles g ps → P g
  any_handled [] k m = absurd m
  any_handled (p ∷ ps) (k, ks) (inl m) = handled p k m
  any_handled (p ∷ ps) (k, ks) (inr m) = any_handled ps ks m

  mutual
    unfolding Offers IsOffered

    -- What an element offers has every property of the gestures that it offers.
    pub IsOffered-Offers : (n : Node) → Offers P n → IsOffered g n → P g
    IsOffered-Offers nothing k m = absurd m
    IsOffered-Offers (text s) k m = absurd m
    IsOffered-Offers (message key) k m = absurd m
    IsOffered-Offers (date s) k m = absurd m
    IsOffered-Offers (element name props inside) (k, ks) (inl m) = any_handled props k m
    IsOffered-Offers (element name props inside) (k, ks) (inr m) = IsInside-AllOffer inside ks m
    IsOffered-Offers (slot name inside) k m = IsInside-AllOffer inside k m
    IsOffered-Offers (card false inside) k m = IsInside-AllOffer inside k m
    IsOffered-Offers (card true inside) k m = absurd m
    IsOffered-Offers (modal false inside) k m = absurd m
    IsOffered-Offers (modal true inside) k m = IsInside-AllOffer inside k m

    IsInside-AllOffer : (ns : Nodes) → AllOffer P ns → IsInside g ns → P g
    IsInside-AllOffer empty k m = absurd m
    IsInside-AllOffer (cons n ns) (k, ks) (inl m) = IsOffered-Offers n k m
    IsInside-AllOffer (cons n ns) (k, ks) (inr m) = IsInside-AllOffer ns ks m
