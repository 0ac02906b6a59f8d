-- ===== src/System/Authorization.antt =====
-- The token that requests carry, against the one in the session storage.
use webca.Common.{◌≡◌, refl, ◌⊎◌, inl, inr, String, ◌<>◌, Option, none, some}
use webca.Common.Dict.{lookup, lookup-insert}
use webca.Constants.{auth_token_key}
use webca.Platform.{Platform}
use webca.World.{World, headers, set_token}
use webca.Operations.Users
use webca.System.Closed.{Closed}
use webca.System.Reachable.{Reach-keeps}
use webca.System.Invariants.{idle}
use webca.System.{System, Reach}

-- A header that carries no token, or the stored one.
abbrev pub Carries : String → Option String → Type 0
Carries header stored =
    (header ≡ "Bearer ")
    ⊎ ((token : String) × (stored ≡ some token) × (header ≡ "Bearer " <> token))

abbrev pub Agrees : Option String → Option String → Type 0
Agrees none stored = Unit
Agrees (some header) stored = Carries header stored

module _ {p : Platform} where
  abbrev pub IsAuthorized : World p → Type 0
  IsAuthorized w =
      Agrees (lookup "Authorization" (headers w)) (lookup auth_token_key w.session_storage)

  header-set_token :
      (token : String) (w : World p)
      → lookup "Authorization" (headers (set_token token w)) ≡ some ("Bearer " <> token)
  unfolding set_token
  header-set_token token w = simp (p.get_headers-set_headers, lookup-insert)

  carried :
      (token : String) (w : World p)
      → lookup auth_token_key w.session_storage ≡ some token
      → IsAuthorized (set_token token w)
  unfolding set_token
  carried token w same = rw (header-set_token token w) (inr (token, same, refl))

  pub IsAuthorized-Closed : Closed IsAuthorized
  unfolding Users.logout Users.store_auth_response
  IsAuthorized-Closed = record {
    by_dispatch = λ a w h. h;
    by_log = λ l m w h. h;
    by_push = λ path w h. h;
    by_token = λ token w same h. carried token w same;
    by_store =
        λ auth w h. rw (header-set_token auth.token w) (inr (auth.token, simp lookup-insert, refl));
    by_logout = λ u w h. rw (header-set_token "" w) (inl refl);
    by_save = λ l w h. h;
  }

  -- From a tab whose client has no header `Authorization` on, in every reachable system: if the client
  -- has this header, it carries no token, or the token that is in the session storage at that time.
  pub Reach-Carries :
      (w : World p) (t : System p) (header : String)
      → lookup "Authorization" (headers w) ≡ none
      → Reach (idle w) t
      → lookup "Authorization" (headers t.world) ≡ some header
      → Carries header (lookup auth_token_key t.world.session_storage)
  Reach-Carries w t header fresh r e =
      let h = (Reach-keeps IsAuthorized-Closed r (rw fresh tt, tt)).0 in rw e at h
