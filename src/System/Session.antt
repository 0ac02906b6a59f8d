-- ===== src/System/Session.antt =====
-- Logging in, reloading the page and logging out.
use webca.Common.{◌≡◌, ◌≢◌, refl, ap, ◌∙◌, String, ◌<>◌, true, false, some, [], ◌∷◌, arith, eq_iff}
use webca.Common.Text.{truthy}
use webca.Common.Dict.{Dict, lookup, lookup-insert}
use webca.Constants.{user_id_key, auth_token_key}
use webca.Types.{AuthenticationRequest, AuthenticationResponse, User, UserState, HttpResponse}
use webca.State.{AppState, reducer, initial_state}
use webca.State.Actions.{on_user, add_user}
use webca.Platform.{Platform}
use webca.World.{World, state, headers, debug, write_log, dispatch, set_token}
use webca.Operations.{resume}
use webca.Operations.Calls.{Call, Answer, SuccessCallback}
use webca.Operations.Calls
use webca.Operations.Users
use webca.Hooks.{use_is_authenticated}

-- The slice of a store that holds a user.
abbrev pub logged_in : User → UserState
logged_in u = record { user = some u; loaded = true }

-- A text that is not empty is truthy.
pub truthy_of_ne : (s : String) → s ≢ "" → truthy (some s) ≡ true
truthy_of_ne s h = ground (arith, eq_iff s "")

module _ {p : Platform} where
  -- The user's id and token are in the session storage, and the token in the header of requests.
  pub record HasCredentials (auth : AuthenticationResponse) (w : World p) : Type 0 where
    pub token : lookup auth_token_key w.session_storage ≡ some auth.token
    pub user_id : lookup user_id_key w.session_storage ≡ some auth.user.id
    pub authorization : lookup "Authorization" (headers w) ≡ some ("Bearer " <> auth.token)

  -- What a successful login or sign-up leaves behind before the callback runs.
  abbrev pub signed_in : AuthenticationResponse → String → World p → World p
  signed_in body message w =
      dispatch (on_user (add_user body.user))
        (Users.store_auth_response body (write_log debug message w))

  signed_in-HasCredentials :
      (body : AuthenticationResponse) (message : String) (w : World p)
      → HasCredentials body (signed_in body message w)
  unfolding Users.store_auth_response
  signed_in-HasCredentials body message w = record {
    token = simp lookup-insert;
    user_id = simp lookup-insert;
    authorization = simp (p.get_headers-set_headers, lookup-insert);
  }

  -- The outcome `v'` of a sign-in: the callback is told of the success in a world with credentials,
  -- whose store differs from that of `w` exactly in its user slice.
  abbrev pub SignsIn : SuccessCallback p → AuthenticationResponse → World p → World p → Type 0
  SignsIn callback body w v' =
      (v : World p) × (v' ≡ callback true v)
      × HasCredentials body v
      × (state v ≡ record (state w) { user = logged_in body.user })

  -- A successful answer to `login`, and one to `signUp`, leaves a world in which the token and the
  -- user's id are in the session storage, the token is in the client's header, and the store differs
  -- from the one before exactly in its user slice, which holds the user; there the callback is told
  -- of the success.
  pub sign_in_success :
      (req : AuthenticationRequest) (callback : SuccessCallback p)
      (r : HttpResponse AuthenticationResponse) (body : AuthenticationResponse) (w : World p)
      → r.body ≡ some body
      → SignsIn callback body w (Users.login req callback r w)
        × SignsIn callback body w (Users.sign_up req callback r w)
  unfolding Users.login Users.sign_up reducer
  sign_in_success req callback r body w e = (
    (
      signed_in body ("Successfully logged in user for account: " <> req.account_name) w,
      rw e refl,
      signed_in-HasCredentials body _ w,
      p.get_state-dispatch _ _,
    ),
    (
      signed_in body ("Successfully created new user for account: " <> req.account_name) w,
      rw e refl,
      signed_in-HasCredentials body _ w,
      p.get_state-dispatch _ _,
    ),
  )

  -- A reload of the page: a new store and a new client with the headers `h`; the browser keeps its
  -- storages.
  abbrev pub reload : Dict → World p → World p
  reload h w = record w { store = p.create_store; client = p.new_client h }

  -- If a tab has credentials that are not empty, then after a reload nobody is authenticated, and
  -- the effect of `useIsAuthenticated` puts the token back into the header and asks for the user
  -- with the stored id and for nothing else. When the answer brings a user, that user is in the
  -- store and authenticated, and the credentials are as before the reload.
  pub reload-restores :
      (auth : AuthenticationResponse) (h : Dict) (w : World p) (r : HttpResponse User) (u : User)
      → HasCredentials auth w
      → auth.token ≢ ""
      → auth.user.id ≢ ""
      → r.body ≡ some u
      → let fresh = reload h w in
        let restored = set_token auth.token fresh in
        let after = (resume (Calls.get_user auth.user.id) r restored).0 in
        ((use_is_authenticated fresh).0 ≡ false)
        × ((use_is_authenticated fresh).1 fresh ≡ (restored, Calls.get_user auth.user.id ∷ []))
        × (state after ≡ record initial_state { user = logged_in u })
        × HasCredentials auth after
  unfolding resume Users.get_user use_is_authenticated reducer set_token
  reload-restores auth h w r u c token id e = (
    ap (λ s. s.user.loaded) p.get_state-create_store,
    rw (c.token, c.user_id, truthy_of_ne _ token, truthy_of_ne _ id) refl,
    rw e (
        p.get_state-dispatch _ _
        ∙ ap (λ (s : AppState). record s { user = logged_in u }) p.get_state-create_store),
    rw e (record {
      token = c.token;
      user_id = c.user_id;
      authorization = simp (p.get_headers-set_headers, lookup-insert);
    }),
  )
