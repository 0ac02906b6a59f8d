-- ===== src/Pages/Routes/Navigation.antt =====
-- Where the navigation of the app leads.
use webca.Common.{
  ◌≡◌, refl, ap, ◌∙◌, String, Bool, true, false, Option, none, some, List, [], ◌∷◌, ◌==◌, arith,
  if◌then◌else◌, All,
}
use webca.Common.Dict.{lookup}
use webca.Common.Text.Split.{split}
use webca.Platform.{Platform}
use webca.World.{World, state}
use webca.Hooks.{use_is_authenticated}
use webca.System.{Event, perform}
use webca.Pages.Router.{Router, Route, or_later, IsPlain, at_path, segments_of, match_segments}
use webca.Pages.Routes.{
  Page, authenticated_routes, unauthenticated_routes, certificate, new_certificate,
  certificate_list, account, settings_page, new_invitation, home_page, signs_up, logs_in, page_of,
}

-- The page at a path, by the segments of the path.
abbrev pub authenticated_page : List String → Page
authenticated_page (s ∷ []) =
    if "certificates" == s
    then certificate_list
    else if "account" == s
    then account
    else if "settings" == s
    then settings_page
    else home_page
authenticated_page (s ∷ t ∷ []) =
    if "certificates" == s
    then (if "add" == t then new_certificate else certificate (some t))
    else if "invitations" == s
    then (if "add" == t then new_invitation else home_page)
    else home_page
authenticated_page _ = home_page

abbrev pub unauthenticated_page : List String → Page
unauthenticated_page (s ∷ []) =
    if "signup" == s then signs_up else if "login" == s then logs_in else signs_up
unauthenticated_page _ = signs_up

-- `Switch` by the law of the router.
abbrev switch_segments : List (Route Page) → List String → Option Page
switch_segments [] segments = none
switch_segments (route ∷ routes) segments =
    or_later (match_segments route.exact (segments_of route.path) segments) route.page
      (switch_segments routes segments)

switch-eq :
    (router : Router) (routes : List (Route Page)) (segments : List String)
    → All IsPlain segments
    → router.switch routes (at_path segments) ≡ switch_segments routes segments
switch-eq router [] segments h = router.switch-none (at_path segments)
switch-eq router (route ∷ routes) segments h =
    router.switch-first route routes (at_path segments)
    ∙ (ap (λ o. or_later o route.page (router.switch routes (at_path segments)))
          (router.matches-at_path route.exact route.path segments h)
        ∙ ap (or_later (match_segments route.exact (segments_of route.path) segments) route.page)
            (switch-eq router routes segments h))

authenticated_segments :
    (segments : List String)
    → switch_segments authenticated_routes segments ≡ some (authenticated_page segments)
unfolding match_segments split lookup
authenticated_segments [] = refl
authenticated_segments (s ∷ []) = ground arith
authenticated_segments (s ∷ t ∷ []) = ground arith
authenticated_segments (s ∷ t ∷ u ∷ ss) = ground arith

unauthenticated_segments :
    (segments : List String)
    → switch_segments unauthenticated_routes segments ≡ some (unauthenticated_page segments)
unfolding match_segments split
unauthenticated_segments [] = refl
unauthenticated_segments (s ∷ []) = ground arith
unauthenticated_segments (s ∷ t ∷ ss) = ground arith

if_equal :
    (b : Bool) {x x' y y' : Option Page}
    → x ≡ x'
    → y ≡ y'
    → (if b then x else y) ≡ (if b then x' else y')
if_equal true e e' = e
if_equal false e e' = e'

-- At a location of plain segments, the routes show the page of the reference: for a user who is
-- logged in, `authenticated_page`, in which `/certificates/add` is the form and any other
-- `/certificates/<id>` is the page of the certificate `id`; for anybody else `unauthenticated_page`,
-- which is the login at `/login` and the sign-up everywhere else.
pub page_of-segments :
    {p : Platform} (router : Router) (w : World p) (segments : List String)
    → All IsPlain segments
    → page_of router w (at_path segments) ≡ (
        if (state w).user.loaded
        then some (authenticated_page segments)
        else some (unauthenticated_page segments))
unfolding page_of use_is_authenticated
page_of-segments router w segments h =
    if_equal (state w).user.loaded
      (switch-eq router authenticated_routes segments h ∙ authenticated_segments segments)
      (switch-eq router unauthenticated_routes segments h ∙ unauthenticated_segments segments)

-- The location that the tab was sent to last.
abbrev pub latest : List String → String
latest [] = "/"
latest (location ∷ earlier) = location

-- The page after an event.
abbrev pub arrives : {p : Platform} → Router → Event → World p → Option Page
arrives router e w = page_of router (perform e w).0 (latest (perform e w).0.locations)

-- The page at the location that the tab was sent to last.
abbrev pub arrived : {p : Platform} → Router → World p → Option Page
arrived router w = page_of router w (latest w.locations)
