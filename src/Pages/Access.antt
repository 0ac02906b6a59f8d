-- ===== src/Pages/Access.antt =====
-- modules/login/components/Login.tsx, modules/signup/components/SignUp.tsx, and their containers.
use webca.Common.{String, some, List, [], ◌∷◌}
use webca.Common.Dict.{Dict}
use webca.Constants.{password_min_length}
use webca.Types.{AuthenticationRequest}
use webca.System.{logs_in, signs_up}
use webca.Pages.Gesture.{Gesture, does, follows}
use webca.Pages.Markup.{Node, Rule, message, tag, on_click}
use webca.Pages.Fields.{field, required, item, input, submit_button, form}

-- `onFinish`: the request of the form's values.
abbrev pub request_of : Dict → AuthenticationRequest
request_of values = record {
  account_name = field "accountName" values;
  email = field "email" values;
  password = field "password" values;
}

abbrev pub email_rule : String → Rule
email_rule key = record (required key) { type = some "email" }

abbrev pub link : String → String → Node
link to key = tag "Link" (on_click (follows to ∷ []) ∷ []) (message key ∷ [])

unfoldable pub login_page : (AuthenticationRequest → List Gesture) → Node
login_page submit = tag "div" [] (
    tag "h1" [] (message "login.title" ∷ [])
    ∷ form (λ values. submit (request_of values)) "Login input failed. Error:"
        (item "accountName" (required "login.accountName-required")
            (input "Input" "login.accountName-placeholder" ∷ [])
          ∷ item "email" (email_rule "login.email-required")
              (input "Input" "login.email-placeholder" ∷ [])
          ∷ item "password" (required "login.password-required")
              (input "Input.Password" "login.password-placeholder" ∷ [])
          ∷ submit_button "login.button"
          ∷ [])
    ∷ link "/signup" "login.signup-link"
    ∷ [])

unfoldable pub sign_up_page : (AuthenticationRequest → List Gesture) → Node
sign_up_page submit = tag "div" [] (
    tag "h1" [] (message "signup.title" ∷ [])
    ∷ form (λ values. submit (request_of values)) "Signup input failed. Error:"
        (item "accountName" (required "signup.accountName-required")
            (input "Input" "signup.accountName-placeholder" ∷ [])
          ∷ item "email" (email_rule "signup.email-required")
              (input "Input" "signup.email-placeholder" ∷ [])
          ∷ item "password"
              (record (required "signup.password-required") { min = some password_min_length })
              (input "Input.Password" "signup.password-placeholder" ∷ [])
          ∷ submit_button "signup.button"
          ∷ [])
    ∷ link "/login" "signup.login-link"
    ∷ [])

-- `LoginContainer` and `SignUpContainer`
unfoldable pub login_container : Node
unfolding login_page
login_container = login_page (λ req. does (logs_in req) ∷ [])

unfoldable pub sign_up_container : Node
unfolding sign_up_page
sign_up_container = sign_up_page (λ req. does (signs_up req) ∷ [])
