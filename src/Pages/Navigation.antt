-- ===== src/Pages/Navigation.antt =====
-- modules/navigation/SideMenu.tsx, modules/home/Home.tsx, modules/settings and
-- modules/error/ErrorNotification.tsx.
use webca.Common.{String, ◌<>◌, Option, none, some, List, [], ◌∷◌, if◌then◌else◌, ◌==◌}
use webca.Constants.{admin_role, user_role}
use webca.Types.{User, ErrorInfo}
use webca.Platform.{Platform}
use webca.World.{World}
use webca.Hooks.{use_user_state, use_error_state}
use webca.System.{selects_menu_item, logs_out, dismisses_error}
use webca.Pages.Gesture.{Gesture, does}
use webca.Pages.Markup.{Node, nothing, message, text, slot, nodes, tag, on_click, named, plain}
use webca.Pages.Display.{described}

unfoldable pub home : Node
home = tag "div" [] (
    tag "Typography.Title" [] (message "home.title" ∷ [])
    ∷ tag "p" [] (message "home.subtitle" ∷ [])
    ∷ [])

-- The items have the keys `certificates`, `account` and `settings`; the title goes to `/`, which is
-- what the item of the empty key would do.
abbrev menu_item : String → Node
menu_item key =
    tag "Menu.Item" (on_click (does (selects_menu_item key) ∷ []) ∷ [])
      (tag "p" [] (message ("sideMenu." <> (key <> "-item")) ∷ []) ∷ [])

unfoldable pub side_menu : Node
side_menu = tag "Menu" [] (
    tag "h1" (on_click (does (selects_menu_item "") ∷ []) ∷ []) (message "sideMenu.title" ∷ [])
    ∷ menu_item "certificates"
    ∷ menu_item "account"
    ∷ menu_item "settings"
    ∷ [])

unfoldable pub role_color : String → String
role_color role =
    if role == admin_role then "gold" else if role == user_role then "blue" else "default"

unfoldable pub user_details : User → Node
unfolding role_color
user_details user = tag "Descriptions" [] (
    slot "title" (nodes (tag "h2" [] (message "userDetails.title" ∷ []) ∷ []))
    ∷ described "userDetails.email-label" (tag "p" [] (text user.email ∷ []))
    ∷ described "userDetails.role-label" (
        tag "div" [] (
          tag "Tag" (named "color" (plain (role_color user.role)) ∷ []) (text user.role ∷ []) ∷ []))
    ∷ described "userDetails.accountName-label" (tag "p" [] (text user.account.name ∷ []))
    ∷ [])

abbrev pub settings_of : Option User → Node
settings_of none = nothing
settings_of (some user) = tag "div" [] (
    user_details user
    ∷ tag "Button" (on_click (does logs_out ∷ []) ∷ []) (message "settings.logout-button" ∷ [])
    ∷ [])

-- `Settings`
unfoldable pub settings : {p : Platform} → World p → Node
unfolding user_details
settings w = settings_of (use_user_state w).user

abbrev pub alert : List Gesture → Option ErrorInfo → Node
alert on_close none = nothing
alert on_close (some error) =
    tag "div" [] (tag "Alert" (named "message" (plain error.info) ∷ on_click on_close ∷ []) [] ∷ [])

-- `ErrorNotification`
unfoldable pub error_notification : {p : Platform} → World p → Node
error_notification w =
    alert (does (dismisses_error (use_error_state w)) ∷ []) (use_error_state w).error
