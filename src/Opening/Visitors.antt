-- ===== src/Opening/Visitors.antt =====
-- Somebody opens the app who has no session: Ui from the opening of the tab on.
use webca.Common.{◌≡◌, refl, ◌∙◌, ap, not, String, some, none, [], All, Bool-cases, inl, inr}
use webca.Common.Text.{truthy}
use webca.Common.Dict.{Dict, lookup}
use webca.Constants.{auth_token_key, user_id_key}
use webca.Platform.{Platform}
use webca.World.{World, headers}
use webca.Hooks.{use_is_authenticated, restore_session}
use webca.Startup.{get_client_info}
use webca.Views.PrivateKeyModal
use webca.Pages.Draft
use webca.Pages.Router.{Router}
use webca.Ui.{Ui, world_of}
use webca.Ui.Steps.{Answers, Reach}
use webca.Ui.Refinement.{Reach-system}
use webca.Ui.Anonymous.{LetsNobodyIn, IsAnonymous, IsEntry}
use webca.Ui.Anonymous.Laws.{Reach-IsAnonymous}
use webca.Opening.{load_tab, app_effect, open_tab, base_headers}
use webca.Opening.Headers.{init_state-header}
use webca.Opening.Laws.{init_state-state, init_state-session_storage, no_token, Reach-opened}

-- The app at its first render.
abbrev pub open_app : {p : Platform} → String → String → World p → Ui p
open_app new_id session_id loaded = record {
  system = (open_tab new_id session_id loaded).system;
  draft = Draft.initial;
  modal = PrivateKeyModal.initial;
}

module _ {p : Platform} where
  -- Without a token the effect of `Routes` does nothing.
  not_restored :
      (w : World p)
      → lookup auth_token_key w.session_storage ≡ none
      → (use_is_authenticated w).1 w ≡ (w, [])
  unfolding use_is_authenticated restore_session
  not_restored w missing = elim (Bool-cases (not (truthy (lookup user_id_key w.session_storage)))) [
    | inl e ↦ rw (missing, e) refl
    | inr e ↦ rw (missing, e) refl
  ]

  opened-IsAnonymous :
      (new_id session_id : String) (w : World p)
      → lookup auth_token_key w.session_storage ≡ none
      → IsAnonymous w
      → let s = (open_tab new_id session_id w).system in IsAnonymous s.world × (s.pending ≡ [])
  unfolding open_tab app_effect
  opened-IsAnonymous new_id session_id w missing h = rw (not_restored w missing) (
    record {
      nobody = ap (λ s. s.user.loaded) (init_state-state new_id session_id w) ∙ h.nobody;
      no_token =
          ap (lookup auth_token_key) (init_state-session_storage new_id session_id w) ∙ h.no_token;
      no_header = init_state-header new_id session_id "Authorization" w ∙ h.no_header;
    },
    refl,
  )

-- If the session storage holds no token when the app is opened, then for as long as the server answers
-- no login and no sign-up with a body, whatever the user and the server do: nobody is logged in, no
-- token is stored or sent, no calls are under way but logins and sign-ups, and what the client
-- sends carries the id of the browser's client and that of the session.
pub visitor :
    (p : Platform) (router : Router) (Gives : Answers p) (new_id session_id location : String)
    (local session : Dict) (v : Ui p)
    → LetsNobodyIn Gives
    → lookup auth_token_key session ≡ none
    → Reach router Gives (open_app new_id session_id (load_tab local session location)) v
    → let client =
        (get_client_info new_id session_id (load_tab {p = p} local session location)).0 in
      IsAnonymous (world_of v)
      × All IsEntry v.system.pending
      × (lookup "X-Client-ID" (headers (world_of v)) ≡ some client.id)
      × (lookup "X-Session-ID" (headers (world_of v)) ≡ some session_id)
visitor p router Gives new_id session_id location local session v refuses missing r =
    let w : World p = load_tab local session location in
    let fresh : IsAnonymous w = record {
      nobody = ap (λ s. s.user.loaded) p.get_state-create_store;
      no_token = missing;
      no_header = ap (lookup "Authorization") (p.get_headers-new_client base_headers) ∙ no_token;
    } in
    let (anonymous, idle) = opened-IsAnonymous new_id session_id w missing fresh in
    let (h, entries) = Reach-IsAnonymous router Gives _ v refuses anonymous idle r in
    let (_, _, _, client, session_header, _) =
      Reach-opened p new_id session_id location local session v.system
        (Reach-system router Gives r) in
    (h, entries, client, session_header)
