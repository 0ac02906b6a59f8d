-- ===== src/Tests/UiTests.antt =====
-- The theorems about the app as a user meets it, at concrete inputs.
use webca.Common.{◌≡◌, refl, inl, true, false, none, some, [], ◌∷◌, All}
use webca.Common.Dict.{lookup}
use webca.Constants.{admin_role}
use webca.Types.{User}
use webca.State.{initial_state, reducer}
use webca.State.Actions.{on_certificates, select_certificate}
use webca.Platform.{plain}
use webca.World.{World, dispatch, state}
use webca.Operations.Calls.{login, sign_up, get_certificate, download_certificate_private_key}
use webca.System.{authenticates, dialog_callback, visits}
use webca.Views.CertificatePage.{has_role}
use webca.Views.PrivateKeyModal
use webca.Pages.Draft
use webca.Pages.Router.Segments.{plain_router, first_match}
use webca.Pages.Router.{match_segments}
use webca.Pages.Routes.{page_of}
use webca.Hooks.{use_is_authenticated}
use webca.Common.Text.Split.{split}
use webca.Ui.{Ui, settle, after_event, world_of}
use webca.Ui.Steps.{Answers, Reach, browses, effect, here, next}
use webca.Ui.Anonymous.{LetsNobodyIn, IsAnonymous, IsEntry}
use webca.Ui.Anonymous.Laws.{Reach-IsAnonymous}
use webca.Ui.KeyRace.{key_race}
use webca.Tests.Samples.{alice, root, leaf, answer, blank}

-- A server that refuses every login and sign-up, and answers everything else with anything.
abbrev pub refusing : Answers plain
refusing (login req callback) r = r.body ≡ none
refusing (sign_up req callback) r = r.body ≡ none
refusing _ r = Unit

pub refusing-LetsNobodyIn : LetsNobodyIn refusing
refusing-LetsNobodyIn = record {
  by_login = λ req callback r e. e;
  by_sign_up = λ req callback r e. e;
}

abbrev pub opened : Ui plain
opened = record {
  system = record { world = blank; pending = [] };
  draft = Draft.initial;
  modal = PrivateKeyModal.initial;
}

-- The browser goes to the login, and the effect of `useIsAuthenticated` runs.
abbrev at_login : Ui plain
at_login = settle plain_router (after_event (visits "/login") opened)

abbrev looked_up : Ui plain
looked_up = settle plain_router (after_event authenticates at_login)

looked_up-Reach : Reach plain_router refusing opened looked_up
looked_up-Reach = next (next here (browses "/login" refl)) (effect authenticates (inl refl) refl)

blank-IsAnonymous : IsAnonymous blank
unfolding lookup
blank-IsAnonymous = record { nobody = refl; no_token = refl; no_header = refl }

Reach-IsAnonymous_example : IsAnonymous (world_of looked_up) × All IsEntry looked_up.system.pending
Reach-IsAnonymous_example =
    Reach-IsAnonymous plain_router refusing opened looked_up refusing-LetsNobodyIn blank-IsAnonymous
      refl looked_up-Reach

-- A user who is not an administrator, at the leaf certificate, while the root is still awaited.
abbrev carol : User
carol = record alice { id = "carol-id"; role = "USER" }

abbrev leaf_tab : World plain
leaf_tab = record (dispatch (on_certificates (select_certificate leaf)) blank) {
  store = record (reducer initial_state (on_certificates (select_certificate leaf))) {
    user = record { user = some carol; loaded = true };
  };
  locations = "/certificates/leaf-id" ∷ "/certificates/root-id" ∷ [];
}

abbrev waiting : Ui plain
waiting = record opened {
  system = record { world = leaf_tab; pending = get_certificate "root-id" ∷ [] };
}

key_race_example :
    (v : Ui plain) × Reach plain_router refusing waiting v
    × (has_role (state (world_of v)).user.user admin_role ≡ false)
    × (v.system.pending ≡ download_certificate_private_key "root-id" "secret" dialog_callback ∷ [])
unfolding page_of use_is_authenticated first_match match_segments split lookup reducer
key_race_example =
    key_race plain_router refusing waiting (some "leaf-id") leaf root [] [] "root-id" "secret"
      (answer root) refl refl refl refl refl refl refl refl refl tt
