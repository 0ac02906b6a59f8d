-- ===== src/Opening/Laws.antt =====
-- The invariants of System, from the opening of the tab on.
use webca.Common.{
  ◌≡◌, refl, String, not, ◌||◌, some, none, List, All, false, ◌==◌, ap, ◌∙◌, Bool-cases, inl, inr,
}
use webca.Common.Text.{truthy}
use webca.Common.Dict.{Dict, lookup}
use webca.Constants.{client_id_key, user_id_key, auth_token_key}
use webca.State.Consistency.{IsConsistent, initial_state-IsConsistent, reducer-IsConsistent}
use webca.Platform.{Platform}
use webca.World.{World, headers, state}
use webca.Operations.Calls.{Call}
use webca.Operations.Users
use webca.Hooks.{use_is_authenticated, restore_session}
use webca.Startup.{get_client_info, get_or_create_id, init_state}
use webca.System.{System, Reach, authenticates, perform}
use webca.System.Closed.{Closed, Tame, if_keeps}
use webca.System.Reachable.{perform-Keeps, Reach-keeps}
use webca.System.Invariants.{state-Closed}
use webca.System.Identity.{Identified-Closed, get_or_create_id-stored, init_state-Identified}
use webca.System.Authorization.{IsAuthorized, IsAuthorized-Closed}
use webca.Opening.{base_headers, load_tab, app_effect, open_tab}
use webca.Opening.Headers.{set_token-header, client_id-set_token, init_state-header}

module _ {p : Platform} where
  -- The calls of the effect of `Routes` carry no callback.
  restored-Tame :
      (Q : World p → Type 0) (w : World p) → All (Tame Q) ((use_is_authenticated w).1 w).1
  unfolding use_is_authenticated restore_session
  restored-Tame Q w =
      if_keeps {A = World p × List (Call p)} (λ r. All (Tame Q) r.1)
        (not (truthy (lookup user_id_key w.session_storage))
          || not (truthy (lookup auth_token_key w.session_storage)))
        tt (tt, tt)

  -- What `initState` leaves of the tab.
  get_or_create_id-rest :
      (new_id key : String) (w : World p)
      → let w' = (get_or_create_id new_id key w).1 in
        (w'.store ≡ w.store) × (w'.session_storage ≡ w.session_storage)
  unfolding get_or_create_id
  get_or_create_id-rest new_id key w = elim (Bool-cases (truthy (lookup key w.local_storage))) [
    | inl old ↦ rw old (refl, refl)
    | inr new ↦ rw new (refl, refl)
  ]

  pub init_state-state :
      (new_id session_id : String) (w : World p) → state (init_state new_id session_id w) ≡ state w
  unfolding init_state get_client_info
  init_state-state new_id session_id w =
      ap p.get_state (get_or_create_id-rest new_id client_id_key w).0

  pub init_state-session_storage :
      (new_id session_id : String) (w : World p)
      → (init_state new_id session_id w).session_storage ≡ w.session_storage
  unfolding init_state get_client_info
  init_state-session_storage new_id session_id w = (get_or_create_id-rest new_id client_id_key w).1

  init_state-IsAuthorized :
      (new_id session_id : String) (w : World p)
      → IsAuthorized w
      → IsAuthorized (init_state new_id session_id w)
  init_state-IsAuthorized new_id session_id w h =
      rw
        (
          init_state-header new_id session_id "Authorization" w,
          init_state-session_storage new_id session_id w,
        )
        h

  -- A header that `setToken` does not set.
  HasHeader : String → String → World p → Type 0
  HasHeader name value w = lookup name (headers w) ≡ some value

  HasHeader-Closed :
      (name value : String) → ("Authorization" == name) ≡ false → Closed (HasHeader name value)
  unfolding HasHeader Users.logout Users.store_auth_response
  HasHeader-Closed name value other = record {
    by_dispatch = λ a w h. h;
    by_log = λ l m w h. h;
    by_push = λ path w h. h;
    by_token = λ token w same h. rw (set_token-header token name w, other) h;
    by_store = λ auth w h. rw (set_token-header auth.token name w, other) h;
    by_logout = λ u w h. rw (set_token-header "" name w, other) h;
    by_save = λ l w h. h;
  }

  restored-client_id :
      (new_id session_id : String) (w : World p)
      → (get_client_info new_id session_id ((use_is_authenticated w).1 w).0).0.id
        ≡ (get_client_info new_id session_id w).0.id
  unfolding use_is_authenticated restore_session
  restored-client_id new_id session_id w =
      if_keeps {A = World p × List (Call p)}
        (λ r.
          (get_client_info new_id session_id r.0).0.id ≡ (get_client_info new_id session_id w).0.id)
        (not (truthy (lookup user_id_key w.session_storage))
          || not (truthy (lookup auth_token_key w.session_storage)))
        refl (client_id-set_token new_id session_id _ w)

  -- What the tab has at its opening and keeps.
  opened-keeps :
      {Q : World p → Type 0} (k : Closed Q) (new_id session_id : String) (w : World p)
      (t : System p)
      → Reach (open_tab new_id session_id w).system t
      → Q (init_state new_id session_id ((use_is_authenticated w).1 w).0)
      → Q t.world
  unfolding open_tab app_effect
  opened-keeps {Q} k new_id session_id w t r h = (Reach-keeps k r (h, restored-Tame Q w)).0

  restored-keeps :
      {Q : World p → Type 0} (k : Closed Q) (w : World p) → Q w → Q ((use_is_authenticated w).1 w).0
  unfolding perform
  restored-keeps k w h = (perform-Keeps k authenticates w h).0

-- The content type of the base headers is there when the tab is loaded.
base_type : lookup "Content-Type" base_headers ≡ some "application/json"
unfolding lookup
base_type = refl

pub no_token : lookup "Authorization" base_headers ≡ none
unfolding lookup
no_token = refl

module _ (p : Platform) (new_id session_id location : String) (local session : Dict) where
  abbrev loaded : World p
  loaded = load_tab local session location

  abbrev restored : World p
  restored = ((use_is_authenticated loaded).1 loaded).0

  opened-IsConsistent : IsConsistent (state (init_state new_id session_id restored))
  opened-IsConsistent =
      let fresh : IsConsistent (state loaded) =
        rw p.get_state-create_store initial_state-IsConsistent in
      rw (init_state-state new_id session_id restored)
        (restored-keeps (state-Closed IsConsistent reducer-IsConsistent) loaded fresh)

  opened-IsAuthorized : IsAuthorized (init_state new_id session_id restored)
  opened-IsAuthorized = init_state-IsAuthorized new_id session_id restored (
      restored-keeps IsAuthorized-Closed loaded
        (rw (p.get_headers-new_client base_headers, no_token) tt))

  opened-type : HasHeader "Content-Type" "application/json" (init_state new_id session_id restored)
  unfolding HasHeader
  opened-type = rw (init_state-header new_id session_id "Content-Type" restored) (
      restored-keeps (HasHeader-Closed "Content-Type" "application/json" refl) loaded
        (rw (p.get_headers-new_client base_headers) base_type))

  stored_id :
      lookup client_id_key (get_or_create_id new_id client_id_key restored).1.local_storage
      ≡ some (get_client_info new_id session_id loaded).0.id
  unfolding get_client_info
  stored_id =
      get_or_create_id-stored new_id client_id_key restored
      ∙ ap some (restored-client_id new_id session_id loaded)

-- From the opening of a tab on, whatever the browser kept in its storages and whatever happens then, in
-- every reachable system: the store is consistent; the header `Authorization` of the client, if it
-- is there, carries no token or the one in the session storage; the client has the content
-- type of its base headers, the id of the client and that of the session; and the local
-- storage has the id of the client, for the next tab.
pub Reach-opened :
    (p : Platform) (new_id session_id location : String) (local session : Dict) (t : System p)
    → Reach (open_tab new_id session_id (load_tab local session location)).system t
    → let client =
        (get_client_info new_id session_id (load_tab {p = p} local session location)).0 in
      IsConsistent (state t.world)
      × IsAuthorized t.world
      × (lookup "Content-Type" (headers t.world) ≡ some "application/json")
      × (lookup "X-Client-ID" (headers t.world) ≡ some client.id)
      × (lookup "X-Session-ID" (headers t.world) ≡ some session_id)
      × (lookup client_id_key t.world.local_storage ≡ some client.id)
unfolding HasHeader
Reach-opened p new_id session_id location local session t r =
    let w = load_tab {p = p} local session location in
    let v = ((use_is_authenticated w).1 w).0 in
    let h =
      opened-keeps (Identified-Closed _ _ _) new_id session_id w t r
        (init_state-Identified new_id session_id v) in
    (
      opened-keeps (state-Closed IsConsistent reducer-IsConsistent) new_id session_id w t r
          (opened-IsConsistent p new_id session_id location local session),
      opened-keeps IsAuthorized-Closed new_id session_id w t r
          (opened-IsAuthorized p new_id session_id location local session),
      opened-keeps (HasHeader-Closed "Content-Type" "application/json" refl) new_id session_id w t r
          (opened-type p new_id session_id location local session),
      h.client ∙ ap some (restored-client_id new_id session_id w),
      h.session,
      ap (lookup client_id_key) h.stored ∙ stored_id p new_id session_id location local session,
    )
