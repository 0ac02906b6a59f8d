-- ===== src/System/Identity.antt =====
-- The identity of the client: what `initState` sets up stays in place for as long as the tab is open,
-- and the next start of the app finds it again.
use webca.Common.{
  ◌≡◌, ◌≢◌, refl, String, true, Option, none, some, arith, eq_iff, eq_refl, Bool-cases, inl, inr,
}
use webca.Common.Text.{truthy}
use webca.Common.Dict.{Dict, lookup, lookup-insert}
use webca.Constants.{client_id_key}
use webca.Platform.{Platform}
use webca.World.{World, headers, set_token}
use webca.Startup.{get_or_create_id, get_client_info, init_state}
use webca.Utils.ApiUtil.{shown}
use webca.Operations.Users
use webca.System.Closed.{Closed}
use webca.System.Reachable.{Reach-keeps}
use webca.System.Invariants.{idle}
use webca.System.{System, Reach}

shown-truthy : (o : Option String) → truthy o ≡ true → o ≡ some (shown o)
shown-truthy none h = cc
shown-truthy (some s) h = refl

module _ {p : Platform} where
  -- The headers that identify the client, and the identity that the browser keeps.
  pub record Identified (id session_id : String) (storage : Dict) (w : World p) : Type 0 where
    pub client : lookup "X-Client-ID" (headers w) ≡ some id
    pub session : lookup "X-Session-ID" (headers w) ≡ some session_id
    pub stored : w.local_storage ≡ storage

  set_token-Identified :
      (id session_id : String) (storage : Dict) (token : String) (w : World p)
      → Identified id session_id storage w
      → Identified id session_id storage (set_token token w)
  unfolding set_token
  set_token-Identified id session_id storage token w h = record {
    client = simp (p.get_headers-set_headers, lookup-insert) h.client;
    session = simp (p.get_headers-set_headers, lookup-insert) h.session;
    stored = h.stored;
  }

  pub Identified-Closed :
      (id session_id : String) (storage : Dict) → Closed (Identified id session_id storage)
  unfolding Users.logout Users.store_auth_response
  Identified-Closed id session_id storage = record {
    by_dispatch = λ a w h. record { client = h.client; session = h.session; stored = h.stored };
    by_log = λ l m w h. record { client = h.client; session = h.session; stored = h.stored };
    by_push = λ path w h. record { client = h.client; session = h.session; stored = h.stored };
    by_token = λ token w same. set_token-Identified id session_id storage token w;
    by_store = λ auth w h.
        let g = set_token-Identified id session_id storage auth.token w h in
        record { client = g.client; session = g.session; stored = g.stored };
    by_logout = λ u w h.
        let g = set_token-Identified id session_id storage "" w h in
        record { client = g.client; session = g.session; stored = g.stored };
    by_save = λ l w h. record { client = h.client; session = h.session; stored = h.stored };
  }

  -- What `getOrCreateId` returns is what it leaves in the storage.
  pub get_or_create_id-stored :
      (new_id key : String) (w : World p)
      → lookup key (get_or_create_id new_id key w).1.local_storage
        ≡ some (get_or_create_id new_id key w).0
  unfolding get_or_create_id
  get_or_create_id-stored new_id key w = elim (Bool-cases (truthy (lookup key w.local_storage))) [
    | inl old ↦ rw old (shown-truthy _ old)
    | inr new ↦ rw new (simp (lookup-insert, eq_refl))
  ]

  pub init_state-Identified :
      (new_id session_id : String) (w : World p)
      → Identified
          (get_client_info new_id session_id w).0.id
          session_id
          (get_or_create_id new_id client_id_key w).1.local_storage
          (init_state new_id session_id w)
  unfolding init_state
  init_state-Identified new_id session_id w = record {
    client = simp (p.get_headers-new_client, lookup-insert);
    session = simp (p.get_headers-new_client, lookup-insert);
    stored = refl;
  }

  get_or_create_id_again :
      (id new_id key : String) (w : World p)
      → lookup key w.local_storage ≡ some id
      → id ≢ ""
      → get_or_create_id new_id key w ≡ (id, w)
  unfolding get_or_create_id
  get_or_create_id_again id new_id key w e h = rw e (ground (arith, eq_iff id ""))

  -- If `initState`, with the texts `new_id` and `session_id` from `uuid()`, finds or makes a client
  -- with an id that is not empty, then in every system reached from there the client's headers
  -- `X-Client-ID` and `X-Session-ID` are that id and `session_id`, and `getOrCreateId` finds that id
  -- again and changes nothing.
  pub Reach-client_id :
      (new_id session_id next_id : String) (w : World p) (t : System p)
      → (get_client_info new_id session_id w).0.id ≢ ""
      → Reach (idle (init_state new_id session_id w)) t
      → let client = (get_client_info new_id session_id w).0 in
        (lookup "X-Client-ID" (headers t.world) ≡ some client.id)
        × (lookup "X-Session-ID" (headers t.world) ≡ some session_id)
        × (get_or_create_id next_id client_id_key t.world ≡ (client.id, t.world))
  unfolding get_client_info
  Reach-client_id new_id session_id next_id w t ne r =
      let h =
        (Reach-keeps (Identified-Closed _ _ _) r
          (init_state-Identified new_id session_id w, tt)).0 in
      (
        h.client,
        h.session,
        get_or_create_id_again _ next_id client_id_key t.world
            (rw h.stored (get_or_create_id-stored new_id client_id_key w)) ne,
      )
