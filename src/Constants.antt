-- ===== src/Constants.antt =====
-- web-app/src/constants/index.ts
use webca.Common.{ℕ, String, Bool, true, List, [], ◌∷◌}

abbrev pub dev_mode : Bool
dev_mode = true

abbrev pub timeout_ms : ℕ
timeout_ms = 5000

abbrev pub retry_delay_ms : ℕ
retry_delay_ms = 500

abbrev pub client_id_key : String
client_id_key = "@webca:web-app:CLIENT_ID"

abbrev pub user_id_key : String
user_id_key = "@webca:web-app:USER_ID"

abbrev pub auth_token_key : String
auth_token_key = "@webca:web-app:AUTH_TOKEN"

abbrev pub app_name : String
app_name = "WEBCA_WEB_APP"

abbrev pub app_version : String
app_version = "x.y.z"

abbrev pub password_min_length : ℕ
password_min_length = 16

-- The values of `CERTIFICATE_TYPES`, `ALGORITHMS` and `ROLES`; each key is its value.
abbrev pub root_ca : String
root_ca = "ROOT_CA"

abbrev pub intermediate_ca : String
intermediate_ca = "INTERMEDIATE_CA"

abbrev pub end_certificate : String
end_certificate = "CERTIFICATE"

abbrev pub rsa : String
rsa = "RSA"

abbrev pub admin_role : String
admin_role = "ADMIN"

abbrev pub user_role : String
user_role = "USER"

abbrev pub roles : List String
roles = admin_role ∷ user_role ∷ []

abbrev pub error_display_time_ms : ℕ
error_display_time_ms = 4500
