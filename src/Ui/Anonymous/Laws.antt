-- ===== src/Ui/Anonymous/Laws.antt =====
-- Nobody gets into the app without an answer to a login or a sign-up.
use webca.Common.{
  ◌≡◌, refl, inl, inr, String, false, Option, none, some, List, [], ◌∷◌, ◌++◌, All, All-append,
  All-middle,
}
use webca.Types.{ErrorState}
use webca.Platform.{Platform}
use webca.World.{World, state}
use webca.Hooks.{use_is_authenticated, use_error_state}
use webca.Operations.Calls.{Call}
use webca.System.{Event, perform, authenticates, dismisses_error}
use webca.Pages.Markup.Handlers.{IsAmong, IsOffered-Offers}
use webca.Pages.Draft.{Draft}
use webca.Pages.Offered.{IsPublic, app-IsPublic, Holds, switch-Holds}
use webca.Pages.Router.{Router}
use webca.Pages.Routes.{Page, page_of, unauthenticated_routes}
use webca.Ui.{
  Ui, shown, settle, act, after_gesture, after_event, after_render, page_shown, world_of,
  location_of, page_effects, with_calls,
}
use webca.Ui.Steps.{Answers, Step, gesture, browses, effect, render, response, Reach, here, next}
use webca.Ui.Anonymous.{IsAnonymous, IsEntry, LetsNobodyIn}
use webca.Ui.Anonymous.Steps.{
  IsOutside, push-IsAnonymous, dismiss-IsAnonymous, authenticates-IsOutside, resume-IsOutside,
  act-IsOutside,
}

-- The pages for somebody who is not logged in have no effects of their own.
abbrev IsIdle : Draft → Page → Type 0
IsIdle d page = page_effects (some page) d ≡ []

idle_effects : (page : Option Page) (d : Draft) → Holds (IsIdle d) page → page_effects page d ≡ []
idle_effects none d h = refl
idle_effects (some page) d h = h

module _ {p : Platform} where
  page_of-effects :
      (router : Router) (d : Draft) (w : World p) (location : String)
      → (state w).user.loaded ≡ false
      → page_effects (page_of router w location) d ≡ []
  unfolding page_of use_is_authenticated
  page_of-effects router d w location out = rw out (
      idle_effects (router.switch unauthenticated_routes location) d (
        switch-Holds router (IsIdle d) unauthenticated_routes location
          ((λ params. refl), ((λ params. refl), ((λ params. refl), tt)))))

  effect-IsOutside :
      (e : Event) (seen : ErrorState) (w : World p) (more : List Event)
      → more ≡ []
      → IsAmong e (authenticates ∷ dismisses_error seen ∷ more)
      → IsAnonymous w
      → IsOutside (perform e w)
  unfolding perform
  effect-IsOutside e seen w more no_more (inl same) h = rw same (authenticates-IsOutside w h)
  effect-IsOutside e seen w more no_more (inr (inl same)) h =
      rw same (dismiss-IsAnonymous seen w h, tt)
  effect-IsOutside e seen w more no_more (inr (inr m)) h = absurd (rw no_more at m)

  -- The calls and the tab.
  abbrev Outside : Ui p → Type 0
  Outside u = IsOutside (world_of u, u.system.pending)

  with_calls-IsOutside :
      (r : World p × List (Call p)) (pending : List (Call p))
      → IsOutside r
      → All IsEntry pending
      → IsOutside ((with_calls r pending).world, (with_calls r pending).pending)
  with_calls-IsOutside r pending (h, calls) waiting =
      (h, All-append IsEntry r.1 pending calls waiting)

  module _ (router : Router) (Gives : Answers p) (refuses : LetsNobodyIn Gives) where
    Step-Outside : {u v : Ui p} → Step router Gives u v → Outside u → Outside v
    unfolding settle after_gesture after_event after_render perform
    Step-Outside {u} (gesture g offered same) (h, waiting) =
        let public =
          IsOffered-Offers IsPublic (shown router u)
            (app-IsPublic u.draft u.modal (world_of u) router (location_of u) h.nobody) offered in
        rw same (
          with_calls-IsOutside (act g (world_of u)) u.system.pending
            (act-IsOutside g (world_of u) public h) waiting)
    Step-Outside {u} (browses path same) (h, waiting) =
        rw same (push-IsAnonymous path (world_of u) h, waiting)
    Step-Outside {u} (effect e mounted same) (h, waiting) =
        let more = page_effects (page_shown router u) u.draft in
        rw same (
          with_calls-IsOutside (perform e (world_of u)) u.system.pending
            (effect-IsOutside e (use_error_state (world_of u)) (world_of u) more
              (page_of-effects router u.draft (world_of u) (location_of u) h.nobody) mounted h)
            waiting)
    Step-Outside {u} (render same) (h, waiting) = rw same (h, waiting)
    Step-Outside {u} (response before after c r m listed given told same) (h, waiting) =
        let (entry, rest) = All-middle IsEntry before c after (rw listed at waiting) in
        rw same (
          with_calls-IsOutside _ (before ++ after)
            (resume-IsOutside Gives c r (world_of u) refuses given entry h) rest)

    Reach-Outside : {u v : Ui p} → Reach router Gives u v → Outside u → Outside v
    Reach-Outside here h = h
    Reach-Outside (next r st) h = Step-Outside st (Reach-Outside r h)

  -- From an anonymous tab with no call under way, as long as the server answers no login and no
  -- sign-up with a body, whatever else it answers, wherever the browser goes and whatever the user
  -- does with what the app shows: no user is loaded, no token is stored and none is sent, and no
  -- calls are under way but logins and sign-ups.
  pub Reach-IsAnonymous :
      (router : Router) (Gives : Answers p) (u v : Ui p)
      → LetsNobodyIn Gives
      → IsAnonymous (world_of u)
      → u.system.pending ≡ []
      → Reach router Gives u v
      → IsAnonymous (world_of v) × All IsEntry v.system.pending
  Reach-IsAnonymous router Gives u v refuses h idle r =
      Reach-Outside router Gives refuses r (h, rw idle tt)
