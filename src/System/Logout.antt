-- ===== src/System/Logout.antt =====
-- A logout while the answer about the user is under way.
use webca.Common.{◌≡◌, ◌≢◌, refl, ap, none, some, [], ◌∷◌}
use webca.Common.Dict.{lookup, lookup-remove}
use webca.Constants.{user_id_key, auth_token_key}
use webca.Types.{User, AuthenticationResponse, HttpResponse}
use webca.State.{reducer}
use webca.Platform.{Platform}
use webca.World.{World, state, set_token}
use webca.Operations.{resume}
use webca.Operations.Calls.{get_user}
use webca.Operations.Users
use webca.Hooks.{use_is_authenticated}
use webca.Containers.{handle_logout}
use webca.System.Invariants.{idle}
use webca.System.Steps.{event_to, response_to}
use webca.System.Session.{truthy_of_ne, logged_in, HasCredentials}
use webca.System.{System, Reach, here, next, perform, authenticates, logs_out}

module _ {p : Platform} where
  authenticates_with :
      (auth : AuthenticationResponse) (w : World p)
      → HasCredentials auth w
      → auth.token ≢ ""
      → auth.user.id ≢ ""
      → perform authenticates w ≡ (set_token auth.token w, get_user auth.user.id ∷ [])
  unfolding perform use_is_authenticated
  authenticates_with auth w c token id =
      rw (c.token, c.user_id, truthy_of_ne _ token, truthy_of_ne _ id) refl

  pub logs_out_user :
      (u : User) (w : World p)
      → (state w).user ≡ logged_in u
      → perform logs_out w ≡ (Users.logout (some u) w, [])
  unfolding perform handle_logout
  logs_out_user u w e = rw e refl

  -- In a tab with a user `u` and credentials that are not empty, the effect of
  -- `useIsAuthenticated` asks for the user; if `u` logs out before the answer, and the answer brings
  -- the user `v`, then nothing is pending and the session storage is empty of credentials, but `v`
  -- is in the store and authenticated.
  pub logout_undone :
      (auth : AuthenticationResponse) (u v : User) (r : HttpResponse User) (w : World p)
      → HasCredentials auth w
      → auth.token ≢ ""
      → auth.user.id ≢ ""
      → (state w).user ≡ logged_in u
      → r.body ≡ some v
      → (t : System p) × Reach (idle w) t
        × (t.pending ≡ [])
        × (lookup auth_token_key t.world.session_storage ≡ none)
        × (lookup user_id_key t.world.session_storage ≡ none)
        × ((state t.world).user ≡ logged_in v)
  unfolding resume Users.get_user reducer Users.logout
  logout_undone auth u v r w c token id loaded e =
      let asked = set_token auth.token w in
      let left = Users.logout (some u) asked in
      let asking =
        next here
          (event_to (idle w) authenticates asked _ (authenticates_with auth w c token id)) in
      let leaving = next asking (event_to _ logs_out left _ (logs_out_user u asked loaded)) in
      (
        _,
        next leaving (response_to _ [] [] (get_user auth.user.id) r _ _ refl refl),
        refl,
        rw e (simp lookup-remove),
        rw e (simp lookup-remove),
        rw e (ap (λ s. s.user) (p.get_state-dispatch _ _)),
      )
