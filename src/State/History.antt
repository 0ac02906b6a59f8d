-- ===== src/State/History.antt =====
-- What the store's state means in terms of the actions that were dispatched: every part of it is
-- what the latest action that writes that part has put there. The specification keeps no `loaded`
-- flag: a flag says whether its part is there.
pub mod Laws
pub mod Areas
use webca.Common.{Option, none, some, List, [], ◌∷◌, is_some}
use webca.Types.{
  ErrorInfo, Certificate, CertificateOptions, Page, User, Invitation, CertificateState,
}
use webca.State.Actions.{
  AnyAction, on_error, on_certificates, on_user, on_invitation, add_error, remove_error,
  add_certificates, remove_certificates, add_signing_certificates, remove_signing_certificates,
  select_certificate, add_selected_signatory, remove_selected_signatory, deselect_certificate,
  add_options, remove_options, add_user, remove_user, add_invitation,
}
use webca.State.{AppState, reducer}

-- The parts of the state, each there or not.
pub record View : Type 0 where
  pub error : Option ErrorInfo
  pub user : Option User
  pub invitation : Option Invitation
  pub items : Option (Page Certificate)
  pub certificate : Option Certificate
  pub signatory : Option Certificate
  pub options : Option CertificateOptions
  pub signing : Option (List Certificate)

abbrev list_of : Option (List Certificate) → List Certificate
list_of none = []
list_of (some l) = l

-- The state that stands for a view.
abbrev pub state_of : View → AppState
state_of v = record {
  error = record { error = v.error };
  certificates = record {
    certificates = record { items = v.items; loaded = is_some v.items };
    selected = record { certificate = v.certificate; signatory = v.signatory };
    options = v.options;
    signatories = record { certificates = list_of v.signing; loaded = is_some v.signing };
  };
  user = record { user = v.user; loaded = is_some v.user };
  invitation = record { invitation = v.invitation; loaded = is_some v.invitation };
}

abbrev pub empty_view : View
empty_view = record {
  error = none;
  user = none;
  invitation = none;
  items = none;
  certificate = none;
  signatory = none;
  options = none;
  signing = none;
}

-- What an action writes to each part; `none` if it leaves the part alone.
abbrev pub writes_error : AnyAction → Option (Option ErrorInfo)
writes_error (on_error (add_error e)) = some (some e)
writes_error (on_error remove_error) = some none
writes_error _ = none

abbrev pub writes_user : AnyAction → Option (Option User)
writes_user (on_user (add_user u)) = some (some u)
writes_user (on_user remove_user) = some none
writes_user _ = none

abbrev pub writes_invitation : AnyAction → Option (Option Invitation)
writes_invitation (on_invitation (add_invitation i)) = some (some i)
writes_invitation _ = none

abbrev pub writes_items : AnyAction → Option (Option (Page Certificate))
writes_items (on_certificates (add_certificates items)) = some (some items)
writes_items (on_certificates remove_certificates) = some none
writes_items _ = none

abbrev pub writes_certificate : AnyAction → Option (Option Certificate)
writes_certificate (on_certificates (select_certificate c)) = some (some c)
writes_certificate (on_certificates deselect_certificate) = some none
writes_certificate _ = none

abbrev pub writes_signatory : AnyAction → Option (Option Certificate)
writes_signatory (on_certificates (add_selected_signatory c)) = some (some c)
writes_signatory (on_certificates remove_selected_signatory) = some none
writes_signatory (on_certificates deselect_certificate) = some none
writes_signatory _ = none

abbrev pub writes_options : AnyAction → Option (Option CertificateOptions)
writes_options (on_certificates (add_options o)) = some (some o)
writes_options (on_certificates remove_options) = some none
writes_options _ = none

abbrev pub writes_signing : AnyAction → Option (Option (List Certificate))
writes_signing (on_certificates (add_signing_certificates cs)) = some (some cs)
writes_signing (on_certificates remove_signing_certificates) = some none
writes_signing _ = none

module _ {ℓ} {X : Type ℓ} where
  abbrev pub get_or : Option X → X → X
  get_or none d = d
  get_or (some x) d = x

  abbrev first : Option X → Option X → Option X
  first none o = o
  first (some x) o = some x

  -- What the latest of the actions that write a part has put there.
  pub latest : (AnyAction → Option X) → List AnyAction → Option X
  latest writes [] = none
  latest writes (a ∷ acts) = first (latest writes acts) (writes a)

-- The view after a list of actions, oldest first, from a view.
pub view_after : View → List AnyAction → View
view_after v acts = record {
  error = get_or (latest writes_error acts) v.error;
  user = get_or (latest writes_user acts) v.user;
  invitation = get_or (latest writes_invitation acts) v.invitation;
  items = get_or (latest writes_items acts) v.items;
  certificate = get_or (latest writes_certificate acts) v.certificate;
  signatory = get_or (latest writes_signatory acts) v.signatory;
  options = get_or (latest writes_options acts) v.options;
  signing = get_or (latest writes_signing acts) v.signing;
}

-- The store after a list of actions, oldest first.
unfoldable pub run : AppState → List AnyAction → AppState
unfolding reducer
run s [] = s
run s (a ∷ acts) = run (reducer s a) acts
