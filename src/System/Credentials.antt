-- ===== src/System/Credentials.antt =====
-- The two items that keep a user logged in across a reload are written and removed together.
use webca.Common.{◌≡◌, ap, false, none, some, [], is_some}
use webca.Common.Dict.{lookup, lookup-insert, lookup-remove}
use webca.Constants.{user_id_key, auth_token_key}
use webca.Types.{User}
use webca.State.{reducer}
use webca.State.Actions.{on_user, remove_user}
use webca.Platform.{Platform}
use webca.World.{World, set_token}
use webca.Operations.Users
use webca.Hooks.{use_is_authenticated}
use webca.System.Closed.{Closed}
use webca.System.Reachable.{Reach-keeps}
use webca.System.Invariants.{idle}
use webca.System.{System, Reach}

module _ {p : Platform} where
  -- The session storage holds the token of a login exactly if it holds the user's id.
  abbrev pub IsPaired : World p → Type 0
  IsPaired w =
      is_some (lookup auth_token_key w.session_storage)
      ≡ is_some (lookup user_id_key w.session_storage)

  IsPaired-Closed : Closed IsPaired
  unfolding Users.logout Users.store_auth_response set_token
  IsPaired-Closed = record {
    by_dispatch = λ a w h. h;
    by_log = λ l m w h. h;
    by_push = λ path w h. h;
    by_token = λ token w same h. h;
    by_store = λ auth w h. simp (lookup-insert);
    by_logout = λ u w h. simp (lookup-remove);
    by_save = λ l w h. h;
  }

  -- In every system reached from a tab whose session storage holds the authentication token exactly
  -- if it holds the user's id, that is still so.
  pub Reach-IsPaired :
      (w : World p) (t : System p) → IsPaired w → Reach (idle w) t → IsPaired t.world
  Reach-IsPaired w t h r = (Reach-keeps IsPaired-Closed r (h, tt)).0

  -- Logging out a loaded user leaves neither item in the session storage and nobody in the store,
  -- and the effect of `useIsAuthenticated` at the next render then does nothing.
  pub logout-restore_session :
      (u : User) (w : World p)
      → let w' = Users.logout (some u) w in
        (lookup auth_token_key w'.session_storage ≡ none)
        × (lookup user_id_key w'.session_storage ≡ none)
        × ((use_is_authenticated w').0 ≡ false)
        × ((use_is_authenticated w').1 w' ≡ (w', []))
  unfolding Users.logout use_is_authenticated reducer
  logout-restore_session u w = (
    simp lookup-remove,
    simp lookup-remove,
    ap (λ s. s.user.loaded) (p.get_state-dispatch (on_user remove_user) w.store),
    simp lookup-remove,
  )
