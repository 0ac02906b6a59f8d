-- ===== src/Hooks/Effects/Session.antt =====
-- The effect of `useIsAuthenticated` comes to rest.
use webca.Common.{
  ◌≡◌, refl, sym, ap, ◌∙◌, ◌⊎◌, inl, inr, String, Bool, true, false, not, ◌||◌, Option, none, some,
  List, [], ◌∷◌, Bool-cases, Option-cases, eq_refl,
}
use webca.Common.Text.{truthy}
use webca.Common.Dict.{lookup}
use webca.Constants.{user_id_key, auth_token_key}
use webca.Types.{User, HttpResponse}
use webca.State.{reducer}
use webca.Platform.{Platform}
use webca.World.{World, state, set_token}
use webca.Utils.ApiUtil.{shown}
use webca.Operations.{resume}
use webca.Operations.Calls.{Call, get_user}
use webca.Operations.Users
use webca.Operations.Failure.{resume_failure}
use webca.Hooks.{use_is_authenticated, restore_session}
use webca.Hooks.Effects.{
  Dependency, flag, value, same, all_same, Rendered, session_dependencies, render_session,
}

same_refl : (d : Dependency) → same d d ≡ true
same_refl (flag true) = refl
same_refl (flag false) = refl
same_refl (value none) = refl
same_refl (value (some s)) = eq_refl s

all_same_refl : (ds : List Dependency) → all_same ds ds ≡ true
all_same_refl [] = refl
all_same_refl (d ∷ ds) = rw (same_refl d) (all_same_refl ds)

module _ {p : Platform} where
  -- The answers to the calls of a render, of which only `getUser` can be one.
  pub answer : HttpResponse User → List (Call p) → World p → World p
  answer r [] w = w
  answer r (get_user id ∷ calls) w = answer r calls (resume (get_user id) r w).0
  answer r (_ ∷ calls) w = answer r calls w

  abbrev stored : World p → List Dependency
  stored w =
      value (lookup user_id_key w.session_storage)
      ∷ value (lookup auth_token_key w.session_storage)
      ∷ []

  abbrev loaded : World p → Bool
  loaded w = (state w).user.loaded

  -- `v` has the storage of `w`, and its user is loaded if that of `w` is.
  abbrev Follows : World p → World p → Type 0
  Follows w v = (stored v ≡ stored w) × ((loaded v ≡ loaded w) ⊎ (loaded v ≡ true))

  answered :
      (id : String) (r : HttpResponse User) (w : World p) → Follows w (resume (get_user id) r w).0
  unfolding resume Users.get_user reducer
  answered id r w = elim (Option-cases r.body) [
    | inl none_there ↦
        let (told, (kept, (_, storage, _, _, _))) = resume_failure (get_user id) r w none_there in
        (
          ap (λ x. stored x.0) told
              ∙ ap (λ s. value (lookup user_id_key s) ∷ value (lookup auth_token_key s) ∷ [])
                  storage,
          inl (ap (λ x. loaded x.0) told ∙ ap (λ s. s.user.loaded) kept),
        )
    | inr (body, there) ↦ rw there (refl, inr (ap (λ s. s.user.loaded) (p.get_state-dispatch _ _)))
  ]

  restored :
      (a b : Option String) (r : HttpResponse User) (w : World p)
      → Follows w (answer r (restore_session a b w).1 (restore_session a b w).0)
  unfolding restore_session answer set_token
  restored a b r w = elim (Bool-cases (not (truthy a) || not (truthy b))) [
    | inl missing ↦ rw missing (refl, inl refl)
    | inr there ↦ rw there (answered (shown a) r (set_token (shown b) w))
  ]

  same_dependencies :
      (v w : World p)
      → stored v ≡ stored w
      → loaded v ≡ loaded w
      → session_dependencies v ≡ session_dependencies w
  unfolding session_dependencies
  same_dependencies v w storage user = rw (user, storage) refl

  -- A render at which the dependencies are those of the render before.
  at_rest :
      (before : List Dependency) (w : World p)
      → session_dependencies w ≡ before
      → render_session (some before) w
        ≡ record { dependencies = some before; world = w; calls = [] }
  unfolding render_session
  at_rest before w same_ones = rw (same_ones, all_same_refl before) refl

  -- A render, and the answer to its call.
  abbrev pub rendered_and_answered : HttpResponse User → Rendered p → World p
  rendered_and_answered r s = answer r s.calls s.world

  abbrev started : World p → Rendered p
  started w = record {
    dependencies = some (session_dependencies w);
    world = ((use_is_authenticated w).1 w).0;
    calls = ((use_is_authenticated w).1 w).1;
  }

  started-Follows :
      (r : HttpResponse User) (w : World p) → Follows w (rendered_and_answered r (started w))
  unfolding use_is_authenticated
  started-Follows r w =
      restored (lookup user_id_key w.session_storage) (lookup auth_token_key w.session_storage) r w

  differs :
      (before : List Dependency) (w : World p)
      → all_same before (session_dependencies w) ≡ false
      → render_session (some before) w ≡ started w
  unfolding render_session
  differs before w other = rw other refl

  -- After the render `second` and its answer, the next render finds nothing to do.
  abbrev pub Rests : HttpResponse User → Rendered p → Type 0
  Rests r second =
      let third = render_session second.dependencies (rendered_and_answered r second) in
      (third.calls ≡ []) × (third.world ≡ rendered_and_answered r second)

  quiet :
      (r : HttpResponse User) (before : List Dependency) (v : World p)
      → session_dependencies v ≡ before
      → Rests r (record { dependencies = some before; world = v; calls = [] })
  unfolding answer
  quiet r before v same_ones =
      let e = at_rest before v same_ones in (ap (λ s. s.calls) e, ap (λ s. s.world) e)

  still_loaded :
      (v w : World p)
      → (loaded v ≡ loaded w) ⊎ (loaded v ≡ true)
      → loaded w ≡ true
      → loaded v ≡ loaded w
  still_loaded v w (inl e) h = e
  still_loaded v w (inr e) h = e ∙ sym h

  busy : (r : HttpResponse User) (v : World p) → loaded v ≡ true → Rests r (started v)
  busy r v user =
      let u = rendered_and_answered r (started v) in
      let (storage, follows) = started-Follows r v in
      let e =
        at_rest (session_dependencies v) u
          (same_dependencies u v storage (still_loaded u v follows user)) in
      (ap (λ s. s.calls) e, ap (λ s. s.world) e)

  newly_loaded :
      (w v : World p)
      → loaded w ≡ false
      → loaded v ≡ true
      → all_same (session_dependencies w) (session_dependencies v) ≡ false
  unfolding session_dependencies
  newly_loaded w v before after = rw (before, after) refl

  second_render :
      (r : HttpResponse User) (w v : World p)
      → Follows w v
      → Rests r (render_session (some (session_dependencies w)) v)
  second_render r w v (storage, follows) = elim (Bool-cases (loaded w)) [
    | inl user ↦
        let e = same_dependencies v w storage (still_loaded v w follows user) in
        rw (at_rest (session_dependencies w) v e) (quiet r (session_dependencies w) v e)
    | inr nobody ↦ elim follows [
      | inl user ↦
          let e = same_dependencies v w storage user in
          rw (at_rest (session_dependencies w) v e) (quiet r (session_dependencies w) v e)
      | inr user ↦
          rw (differs (session_dependencies w) v (newly_loaded w v nobody user)) (busy r v user)
    ]
  ]

  -- The effect of `useIsAuthenticated` comes to rest: if the calls that the first two renders make are
  -- answered before the next render, with a user or without one, then the third render makes no call
  -- and changes nothing in the tab.
  pub render_session-Rests :
      (first second : HttpResponse User) (w : World p)
      → Rests second (
          let s = render_session none w in
          render_session s.dependencies (rendered_and_answered first s))
  unfolding render_session
  render_session-Rests first second w =
      second_render second w (rendered_and_answered first (started w)) (started-Follows first w)
