-- ===== src/Pages/Gesture.antt =====
-- What a handler of a component does when the user acts: the dispatches and the navigation of the
-- tab, which are the system's events, and the changes of state that the components keep themselves.
use webca.Common.{String, List, [], ◌∷◌}
use webca.System.{Event}
use webca.Views.NewCertificate
use webca.Views.SignatorySearch
use webca.Views.PrivateKeyModal

pub data Gesture : Type 0 where
  -- A dispatch or a navigation.
  does : Event → Gesture
  -- The router's `Link` to a path.
  follows : String → Gesture
  -- `log.info` of a form that is not valid.
  logs : String → Gesture
  -- `form.setFieldsValue({ [key]: value })`
  sets_field : String → String → Gesture
  -- Changes of the form of a new certificate, of its search of a signatory, of the chosen key size
  -- and of the duration shown.
  changes_form : NewCertificate.Input → Gesture
  changes_search : SignatorySearch.Input → Gesture
  picks_key_size : String → Gesture
  types_duration : String → Gesture
  -- Changes of the modal of the private key.
  changes_modal : PrivateKeyModal.Input → Gesture

-- `onSelect` of `useFormSelect` (state/hooks/index.ts)
abbrev pub on_select : String → String → List Gesture
on_select key value = sets_field key value ∷ []
