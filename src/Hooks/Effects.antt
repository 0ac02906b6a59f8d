-- ===== src/Hooks/Effects.antt =====
-- When React runs the effects of web-app/src/state/hooks/index.ts: after the first render, and after every
-- render at which one of the dependencies differs from the render before, as React documents. The
-- dependency `dispatch` never changes, and is left out.
pub mod Session
pub mod Signatories
use webca.Common.{
  String, Bool, true, false, ◌&&◌, Option, none, some, List, [], ◌∷◌, if◌then◌else◌, ◌==◌,
}
use webca.Common.Dict.{lookup}
use webca.Constants.{user_id_key, auth_token_key}
use webca.Platform.{Platform}
use webca.World.{World, state}
use webca.Operations.Calls.{Call}
use webca.Hooks.{
  use_is_authenticated, use_fetch_certificate_options, use_fetch_certificates,
  use_fetch_signatories, use_selected_certificate, use_account_id, use_certificate_state,
  use_user_state,
}

-- A dependency: a Boolean, or a text that may be undefined or null.
pub data Dependency : Type 0 where
  flag : Bool → Dependency
  value : Option String → Dependency

abbrev pub same_flag : Bool → Bool → Bool
same_flag true b = b
same_flag false true = false
same_flag false false = true

abbrev pub same : Dependency → Dependency → Bool
same (flag a) (flag b) = same_flag a b
same (value none) (value none) = true
same (value (some s)) (value (some t)) = s == t
same _ _ = false

abbrev pub all_same : List Dependency → List Dependency → Bool
all_same [] [] = true
all_same (d ∷ ds) (e ∷ es) = same d e && all_same ds es
all_same _ _ = false

-- The dependencies of the render before, if there was one.
abbrev pub unchanged : Option (List Dependency) → List Dependency → Bool
unchanged none now = false
unchanged (some before) now = all_same before now

-- What a render leaves: the dependencies to compare with, the tab and the calls.
pub record Rendered (p : Platform) : Type 0 where
  pub dependencies : Option (List Dependency)
  pub world : World p
  pub calls : List (Call p)

module _ {p : Platform} where
  -- `useEffect(effect, dependencies)` at a render.
  unfoldable pub use_effect :
      Option (List Dependency)
      → List Dependency
      → (World p → World p × List (Call p))
      → World p
      → Rendered p
  use_effect before now effect w =
      if unchanged before now
      then record { dependencies = before; world = w; calls = [] }
      else record { dependencies = some now; world = (effect w).0; calls = (effect w).1 }

  -- The effects with their dependencies.
  unfoldable pub session_dependencies : World p → List Dependency
  session_dependencies w =
      flag (use_user_state w).loaded
      ∷ value (lookup user_id_key w.session_storage)
      ∷ value (lookup auth_token_key w.session_storage)
      ∷ []

  unfoldable pub render_session : Option (List Dependency) → World p → Rendered p
  unfolding use_effect session_dependencies use_is_authenticated
  render_session before w = use_effect before (session_dependencies w) (use_is_authenticated w).1 w

  unfoldable pub render_options : Option (List Dependency) → World p → Rendered p
  unfolding use_effect
  render_options before w = use_effect before [] (use_fetch_certificate_options w).1 w

  unfoldable pub render_certificates : Option (List Dependency) → World p → Rendered p
  unfolding use_effect
  render_certificates before w =
      use_effect before (value (use_account_id w) ∷ []) (use_fetch_certificates w).1 w

  unfoldable pub render_signatories : Option (List Dependency) → World p → Rendered p
  unfolding use_effect
  render_signatories before w =
      let loaded = (use_certificate_state w).signatories.loaded in
      use_effect before (value (use_account_id w) ∷ flag loaded ∷ []) (use_fetch_signatories w).1 w

  unfoldable pub render_selected : Option (List Dependency) → Option String → World p → Rendered p
  unfolding use_effect
  render_selected before certificate_id w =
      use_effect before (value certificate_id ∷ []) (use_selected_certificate certificate_id w).1 w
