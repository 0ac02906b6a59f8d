-- ===== src/System/Invariants.antt =====
-- Invariants of every reachable system, whatever the order of gestures, effects and responses.
use webca.Common.{◌≡◌, sym, ◌∙◌, ap, List, [], ◌∷◌, ◌++◌}
use webca.State.{AppState, initial_state, reducer}
use webca.State.Actions.{AnyAction}
use webca.State.History.{state_of, view_after, empty_view, run}
use webca.State.History.Laws.{run-concat, run-eq-view_after}
use webca.State.Consistency.{IsConsistent, initial_state-IsConsistent, reducer-IsConsistent}
use webca.Platform.{Platform}
use webca.World.{World, state}
use webca.Operations.Users
use webca.System.Closed.{Closed}
use webca.System.Reachable.{Reach-keeps}
use webca.System.{System, Reach}

-- A tab with no call under way.
abbrev pub idle : {p : Platform} → World p → System p
idle w = record { world = w; pending = [] }

-- The state is that of some history of actions.
abbrev HasHistory : AppState → Type 0
HasHistory s = (acts : List AnyAction) × (s ≡ run initial_state acts)

reducer-HasHistory : (s : AppState) (a : AnyAction) → HasHistory s → HasHistory (reducer s a)
reducer-HasHistory s a (acts, e) =
    (acts ++ a ∷ [], ap (λ s'. reducer s' a) e ∙ sym (run-concat initial_state acts a))

module _ {p : Platform} where
  -- What the reducer keeps is kept by every effect.
  pub state-Closed :
      (P : AppState → Type 0)
      → ((s : AppState) (a : AnyAction) → P s → P (reducer s a))
      → Closed {p = p} (λ w. P (state w))
  unfolding Users.logout Users.store_auth_response
  state-Closed P keep = record {
    by_dispatch = λ a w h. rw (p.get_state-dispatch a w.store) (keep _ a h);
    by_log = λ l m w h. h;
    by_push = λ path w h. h;
    by_token = λ token w same h. h;
    by_store = λ auth w h. h;
    by_logout = λ u w h. rw (p.get_state-dispatch _ w.store) (keep _ _ h);
    by_save = λ l w h. h;
  }

  -- Whatever the user does and in whatever order the responses come, the state of a store that
  -- started in its initial state is consistent: each of the flags `loaded` of the user, the
  -- invitation and the certificates says whether its data is there, and no signatories are listed
  -- before they are loaded.
  pub Reach-IsConsistent :
      (w : World p) (t : System p)
      → state w ≡ initial_state
      → Reach (idle w) t
      → IsConsistent (state t.world)
  Reach-IsConsistent w t fresh r =
      (Reach-keeps (state-Closed IsConsistent reducer-IsConsistent) r
        (rw fresh initial_state-IsConsistent, tt)).0

  -- In every system reached from a tab with a new store there is a list of actions such that each
  -- part of the store's state is what the latest of these actions that writes the part has put there.
  pub Reach-view :
      (w : World p) (t : System p)
      → state w ≡ initial_state
      → Reach (idle w) t
      → (acts : List AnyAction) × (state t.world ≡ state_of (view_after empty_view acts))
  unfolding run
  Reach-view w t fresh r =
      let ((acts, e), _) =
        Reach-keeps (state-Closed HasHistory reducer-HasHistory) r (([], fresh), tt) in
      (acts, e ∙ run-eq-view_after acts)
