-- ===== src/Operations/Errors.antt =====
-- state/error/operations.ts
use webca.Common.{String, ◌<>◌, Option, none, some, if◌then◌else◌}
use webca.Common.Text.{truthy}
use webca.Common.Decimal.{decimal}
use webca.Types.{JsError, ErrorInfo, ResponseMetadata}
use webca.State.Actions.{on_error, add_error}
use webca.Platform.{Platform}
use webca.World.{World, dispatch}
use webca.Translations.{get_message}
use webca.Utils.ApiUtil.{create_api_error}

-- `message || key`
abbrev pub or_else : Option String → String → String
or_else none key = key
or_else (some message) key = if truthy (some message) then message else key

-- `error || createApiError(metadata)`
abbrev pub error_or : Option JsError → JsError → JsError
error_or none e = e
error_or (some e) _ = e

module _ {p : Platform} where
  unfoldable pub create_error_info : String → JsError → World p → ErrorInfo × World p
  unfolding get_message
  create_error_info key e w =
      let (message, w') = get_message key w in
      (record { info = or_else message key; error = e }, w')

  unfoldable pub register_error : String → JsError → World p → World p
  unfolding create_error_info
  register_error key e w =
      let (err, w') = create_error_info key e w in dispatch (on_error (add_error err)) w'

  unfoldable pub register_http_error : String → ResponseMetadata → JsError → World p → World p
  unfolding create_error_info
  register_http_error name metadata e w =
      let (err, w') = create_error_info (name <> ("." <> decimal metadata.status)) e w in
      dispatch (on_error (add_error err)) w'

  -- What every error handler of the user and invitation operations dispatches.
  abbrev pub report : String → Option JsError → ResponseMetadata → World p → World p
  report name e metadata =
      register_http_error name metadata (error_or e (create_api_error p metadata))
