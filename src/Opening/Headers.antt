-- ===== src/Opening/Headers.antt =====
-- The headers of the client after `setToken` and `initState`.
use webca.Common.{◌≡◌, refl, String, ◌<>◌, some, if◌then◌else◌, ◌==◌, Bool-cases, inl, inr}
use webca.Common.Dict.{lookup, lookup-insert}
use webca.Constants.{client_id_key}
use webca.Common.Text.{truthy}
use webca.Platform.{Platform}
use webca.World.{World, headers, set_token}
use webca.Startup.{get_or_create_id, get_client_info, init_state}

module _ {p : Platform} where
  pub set_token-header :
      (token name : String) (w : World p)
      → lookup name (headers (set_token token w))
        ≡ (if "Authorization" == name then some ("Bearer " <> token) else lookup name (headers w))
  unfolding set_token
  set_token-header token name w = simp (p.get_headers-set_headers, lookup-insert)

  -- The id of the client depends on the local storage only, and is found or made without the
  -- client.
  pub client_id-set_token :
      (new_id session_id token : String) (w : World p)
      → (get_client_info new_id session_id (set_token token w)).0.id
        ≡ (get_client_info new_id session_id w).0.id
  unfolding get_client_info get_or_create_id set_token
  client_id-set_token new_id session_id token w =
      elim (Bool-cases (truthy (lookup client_id_key w.local_storage))) [
        | inl old ↦ rw old refl
        | inr new ↦ rw new refl
      ]

  get_or_create_id-client :
      (new_id key : String) (w : World p) → (get_or_create_id new_id key w).1.client ≡ w.client
  unfolding get_or_create_id
  get_or_create_id-client new_id key w = elim (Bool-cases (truthy (lookup key w.local_storage))) [
    | inl old ↦ rw old refl
    | inr new ↦ rw new refl
  ]

  pub init_state-header :
      (new_id session_id name : String) (w : World p)
      → lookup name (headers (init_state new_id session_id w)) ≡ (
          if "X-Session-ID" == name
          then some session_id
          else if "X-Client-ID" == name
          then some (get_client_info new_id session_id w).0.id
          else lookup name (headers w))
  unfolding init_state get_client_info
  init_state-header new_id session_id name w =
      simp (p.get_headers-new_client, lookup-insert, get_or_create_id-client new_id client_id_key w)
