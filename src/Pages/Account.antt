-- ===== src/Pages/Account.antt =====
-- modules/account: the account with its users, and the form of an invitation.
use webca.Common.{String, Option, none, some, List, [], ◌∷◌, map}
use webca.Constants.{roles}
use webca.Types.{Account, User, InvitationCreationRequest}
use webca.Platform.{Platform}
use webca.World.{World}
use webca.Hooks.{use_account}
use webca.System.{invites, opens_invitation_form}
use webca.Pages.Gesture.{Gesture, does, on_select}
use webca.Pages.Markup.{
  Node, Choice, nothing, message, text, slot, nodes, tag, each, named, plain, translated, on_click,
}
use webca.Pages.Fields.{field, required, item, input, submit_button, form}
use webca.Pages.Access.{email_rule}
use webca.Pages.Display.{date_time, described, dropdown}

unfoldable pub account_details : Account → Node
account_details account = tag "div" [] (
    tag "Descriptions" [] (
      slot "title" (nodes (tag "h2" [] (message "account.title" ∷ []) ∷ []))
      ∷ described "account.details.name-label" (tag "p" [] (text account.name ∷ []))
      ∷ described "account.details.createdAt-label" (date_time (some account.created_at))
      ∷ [])
    ∷ [])

unfoldable pub user_management_title : List Gesture → Node
user_management_title create_new_invitation = tag "div" [] (
    tag "h2" [] (message "userManagement.title" ∷ [])
    ∷ tag "Button" (on_click create_new_invitation ∷ [])
        (message "userManagement.inviteUser-button" ∷ [])
    ∷ [])

-- The columns of a table, and a row for each user.
abbrev user_row : User → Node
user_row user = tag "tr" [] (
    tag "td" [] (text user.email ∷ [])
    ∷ tag "td" [] (text user.role ∷ [])
    ∷ tag "td" [] (date_time (some user.created_at) ∷ [])
    ∷ [])

abbrev pub column : String → Node
column key = tag "th" (named "title" (translated key) ∷ []) []

unfoldable pub user_management : List User → List Gesture → Node
unfolding user_management_title
user_management users create_new_invitation = tag "Table" [] (
    slot "title" (nodes (user_management_title create_new_invitation ∷ []))
    ∷ slot "columns" (
        nodes (
          column "userManagement.email-column"
          ∷ column "userManagement.role-column"
          ∷ column "userManagement.createdAt-column"
          ∷ []))
    ∷ slot "dataSource" (each user_row users)
    ∷ [])

-- `UserManagementContainer`, which lists no users.
unfoldable pub user_management_container : Node
unfolding user_management
user_management_container = user_management [] (does opens_invitation_form ∷ [])

abbrev pub account_parts : Option Account → Node
account_parts none = nothing
account_parts (some account) =
    tag "Fragment" [] (account_details account ∷ user_management_container ∷ [])

-- `Account`
unfoldable pub account_page : {p : Platform} → World p → Node
unfolding account_details user_management_container
account_page w = account_parts (use_account w)

abbrev role_options : List Choice
role_options = map (λ role. record { id = role; text = plain role }) roles

unfoldable pub new_invitation : (InvitationCreationRequest → List Gesture) → Node
new_invitation submit = tag "div" [] (
    tag "h1" [] (message "newInvitation.title" ∷ [])
    ∷ form (λ values. submit (record { email = field "email" values; role = field "role" values }))
        "Create invitation input failed. Error: "
        (item "email" (email_rule "newInvitation.email-required")
            (input "Input" "newInvitation.email-placeholder" ∷ [])
          ∷ item "role" (required "newInvitation.role-required")
              (dropdown "newInvitation.role-placeholder" role_options (on_select "role") ∷ [])
          ∷ submit_button "newInvitation.button"
          ∷ [])
    ∷ [])

-- `NewInvitationContainer`
unfoldable pub new_invitation_container : Node
unfolding new_invitation
new_invitation_container = new_invitation (λ req. does (invites req) ∷ [])
