-- ===== src/Ui.antt =====
-- The web app as a user meets it: the system of calls together with the page that is shown and the state
-- of its components (web-app/src/App.tsx and what it shows). Only what the shown elements offer can be
-- done, and only the hooks of the shown components run their effects. A component that is no longer
-- shown loses its state.
pub mod Steps
pub mod Refinement
pub mod Anonymous
pub mod FormState
pub mod KeyRace
use webca.Common.{
  ◌≡◌, Bool, true, false, String, Option, none, some, is_some, List, [], ◌∷◌, ◌++◌, map,
  if◌then◌else◌, ◌⊎◌,
}
use webca.Types.{CertificateOptions, HttpResponse}
use webca.Platform.{Platform}
use webca.World.{World, state}
use webca.Hooks.{use_certificate_options, use_error_state}
use webca.Operations.{resume}
use webca.Operations.Calls.{Call, Answer, download_certificate_private_key}
use webca.System.{
  System, Event, perform, authenticates, dismisses_error, shows_certificate, shows_options,
  lists_certificates, searches_signatories, visits, logs_form,
}
use webca.Views.NewCertificate.{show_signatory_search}
use webca.Views.PrivateKeyModal
use webca.Views.PrivateKeyModal.{Modal, answers}
use webca.Pages.Gesture.{Gesture, does, follows, logs, changes_modal}
use webca.Pages.Markup.{Node}
use webca.Pages.Markup.Handlers.{IsAmong, IsOffered}
use webca.Pages.Display.{on_render}
use webca.Pages.Draft
use webca.Pages.Draft.{Draft, change, change_all}
use webca.Pages.NewCertificate.{type_choice, algorithm_choice, selects_type, selects_algorithm}
use webca.Pages.Router.{Router}
use webca.Pages.Routes.{Page, certificate, new_certificate, certificate_list, page_of, app}
use webca.Pages.Routes.Navigation.{latest}

pub record Ui (p : Platform) : Type 0 where
  pub system : System p
  pub draft : Draft
  pub modal : Modal

-- The state of the form and of the modal, which are there on one page each; the form also needs its
-- options.
abbrev pub mounted_draft : Option Page → Option CertificateOptions → Draft → Draft
mounted_draft (some new_certificate) (some options) d = d
mounted_draft _ _ d = Draft.initial

abbrev pub mounted_modal : Option Page → Modal → Modal
mounted_modal (some (certificate id)) m = m
mounted_modal _ m = PrivateKeyModal.initial

-- A gesture changes the state of the component that is shown.
abbrev pub change_draft : Option Page → Option CertificateOptions → Draft → Gesture → Draft
change_draft (some new_certificate) (some options) d g = change d g
change_draft _ _ d g = d

abbrev pub change_modal : Option Page → Modal → Gesture → Modal
change_modal (some (certificate id)) m (changes_modal i) = PrivateKeyModal.handle m i
change_modal _ m g = m

-- The effects of the components of a page.
abbrev pub page_effects : Option Page → Draft → List Event
page_effects (some (certificate id)) d = shows_certificate id ∷ []
page_effects (some certificate_list) d = lists_certificates ∷ []
page_effects (some new_certificate) d =
    shows_options
    ∷ (if show_signatory_search d.form.certificate_type then searches_signatories ∷ [] else [])
page_effects _ d = []

-- What the dropdowns of the form select by themselves.
abbrev pub selected_by_dropdowns : Option CertificateOptions → List Gesture
selected_by_dropdowns none = []
selected_by_dropdowns (some o) =
    on_render (map type_choice o.types) selects_type
    ++ on_render (map algorithm_choice o.algorithms) selects_algorithm

module _ {p : Platform} where
  abbrev pub world_of : Ui p → World p
  world_of u = u.system.world

  abbrev pub location_of : Ui p → String
  location_of u = latest (world_of u).locations

  abbrev pub page_shown : Router → Ui p → Option Page
  page_shown router u = page_of router (world_of u) (location_of u)

  abbrev pub shown : Router → Ui p → Node
  shown router u = app router u.draft u.modal (world_of u) (location_of u)

  -- After every step, the components that are not shown any more lose their state.
  unfoldable pub settle : Router → Ui p → Ui p
  settle router u = record u {
    draft = mounted_draft (page_shown router u) (use_certificate_options (world_of u)) u.draft;
    modal = mounted_modal (page_shown router u) u.modal;
  }

  -- What a gesture does outside the components' own state.
  unfoldable pub act : Gesture → World p → World p × List (Call p)
  act (does e) w = perform e w
  act (follows path) w = perform (visits path) w
  act (logs text) w = perform (logs_form text) w
  act _ w = (w, [])

  abbrev pub with_calls : World p × List (Call p) → List (Call p) → System p
  with_calls r pending = record { world = r.0; pending = r.1 ++ pending }

  unfoldable pub after_gesture : Router → Gesture → Ui p → Ui p
  unfolding act
  after_gesture router g u = record {
    system = with_calls (act g (world_of u)) u.system.pending;
    draft = change_draft (page_shown router u) (use_certificate_options (world_of u)) u.draft g;
    modal = change_modal (page_shown router u) u.modal g;
  }

  -- `useIsAuthenticated` and the error notification are always there.
  abbrev pub effects : Router → Ui p → List Event
  effects router u =
      authenticates
      ∷ dismisses_error (use_error_state (world_of u))
      ∷ page_effects (page_shown router u) u.draft

  unfoldable pub after_event : Event → Ui p → Ui p
  after_event e u = record u { system = with_calls (perform e (world_of u)) u.system.pending }

  unfoldable pub after_render : Ui p → Ui p
  after_render u = record u {
    draft = change_all u.draft (selected_by_dropdowns (use_certificate_options (world_of u)));
  }

  -- The modal after a response to the call `c`. If the modal that sent the call is not shown any more,
  -- its callback does nothing.
  abbrev pub IsToldModal : (c : Call p) → HttpResponse (Answer c) → Modal → Modal → Type 0
  IsToldModal (download_certificate_private_key id password callback) r m m' =
      (m' ≡ m) ⊎ (m' ≡ PrivateKeyModal.handle m (answers (is_some r.body)))
  IsToldModal _ r m m' = m' ≡ m

  abbrev pub after_response :
      (before after : List (Call p)) (c : Call p) → HttpResponse (Answer c) → Modal → Ui p → Ui p
  after_response before after c r m u = record u {
    system = with_calls (resume c r (world_of u)) (before ++ after);
    modal = m;
  }
