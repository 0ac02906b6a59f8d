-- ===== src/System/Order.antt =====
-- What each response dispatches, and that the responses to calls of different areas of the store can
-- come in either order.
pub mod Laws
use webca.Common.{String, ◌<>◌, Bool, Option, none, some, List, [], ◌∷◌, if◌then◌else◌, ◌≡◌}
use webca.Common.Text.{truthy}
use webca.Common.Decimal.{decimal}
use webca.Common.Dict.{lookup}
use webca.Types.{JsError, ResponseMetadata, HttpResponse}
use webca.State.Actions.{
  AnyAction, on_error, on_certificates, on_user, on_invitation, add_error, add_certificates,
  add_signing_certificates, select_certificate, add_selected_signatory, remove_selected_signatory,
  add_options, add_user, add_invitation,
}
use webca.State.History.Areas.{Area, account, selection, listing, signing, options, files}
use webca.Platform.{Platform}
use webca.World.{World, state}
use webca.Translations.En.{en_us}
use webca.Utils.ApiUtil.{create_api_error}
use webca.Operations.Errors.{or_else, error_or}
use webca.Operations.Failure.{shown_as}
use webca.Operations.Calls.{
  Call, Answer, sign_up, login, get_user, create_invitation, get_invitation, create_certificate,
  get_certificate, get_certificate_signatory, get_certificates_by_account_id,
  get_signing_certificates, download_certificate_body, download_certificate_private_key,
  get_certificate_options,
}

-- The area of the store that the responses to a call write.
abbrev pub area : {p : Platform} → Call p → Area
area (sign_up req callback) = account
area (login req callback) = account
area (get_user id) = account
area (create_invitation req callback) = account
area (get_invitation id) = account
area (create_certificate req callback) = selection
area (get_certificate id) = selection
area (get_certificate_signatory id) = selection
area (get_certificates_by_account_id id) = listing
area (get_signing_certificates id) = signing
area get_certificate_options = options
area (download_certificate_body id full) = files
area (download_certificate_private_key id password callback) = files

-- A failure that is shown.
abbrev pub failure_actions :
    Platform → Option String → Option JsError → ResponseMetadata → List AnyAction
failure_actions p none e m = []
failure_actions p (some name) e m =
    let key = name <> ("." <> decimal m.status) in
    on_error (
      add_error (record {
        info = or_else (lookup key en_us) key;
        error = error_or e (create_api_error p m);
      }))
    ∷ []

abbrev pub signatory_actions : Option String → List AnyAction
signatory_actions id = if truthy id then [] else on_certificates remove_selected_signatory ∷ []

module _ {p : Platform} where
  abbrev pub success_actions : (c : Call p) → Answer c → List AnyAction
  success_actions (sign_up req callback) auth = on_user (add_user auth.user) ∷ []
  success_actions (login req callback) auth = on_user (add_user auth.user) ∷ []
  success_actions (get_user id) user = on_user (add_user user) ∷ []
  success_actions (create_invitation req callback) invitation = []
  success_actions (get_invitation id) invitation = on_invitation (add_invitation invitation) ∷ []
  success_actions (create_certificate req callback) c =
      on_certificates (select_certificate c) ∷ signatory_actions c.signatory_id
  success_actions (get_certificate id) c =
      on_certificates (select_certificate c) ∷ signatory_actions c.signatory_id
  success_actions (get_certificate_signatory id) c = on_certificates (add_selected_signatory c) ∷ []
  success_actions (get_certificates_by_account_id id) page =
      on_certificates (add_certificates page) ∷ []
  success_actions (get_signing_certificates id) page =
      on_certificates (add_signing_certificates page.results) ∷ []
  success_actions (download_certificate_body id full) file = []
  success_actions (download_certificate_private_key id password callback) file = []
  success_actions get_certificate_options o = on_certificates (add_options o) ∷ []

  abbrev pub outcome :
      (c : Call p) → Option (Answer c) → Option JsError → ResponseMetadata → List AnyAction
  outcome c none e m = failure_actions p (shown_as c) e m
  outcome c (some body) e m = success_actions c body

  -- What the response to a call dispatches.
  abbrev pub dispatched : (c : Call p) → HttpResponse (Answer c) → List AnyAction
  dispatched c r = outcome c r.body r.error r.metadata

  -- A call whose callback leaves the store as it is.
  abbrev pub IsSilent : Call p → Type 0
  IsSilent (sign_up req callback) = (b : Bool) (w : World p) → state (callback b w) ≡ state w
  IsSilent (login req callback) = (b : Bool) (w : World p) → state (callback b w) ≡ state w
  IsSilent (create_invitation req callback) =
      (b : Bool) (w : World p) → state (callback b w) ≡ state w
  IsSilent (create_certificate req callback) =
      (b : Bool) (id : Option String) (w : World p) → state (callback b id w) ≡ state w
  IsSilent (download_certificate_private_key id password callback) =
      (b : Bool) (w : World p) → state (callback b w) ≡ state w
  IsSilent _ = Unit
