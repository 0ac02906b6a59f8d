-- ===== src/Utils/ApiUtil.antt =====
-- web-app/src/utils/apiutil.ts
use webca.Common.{String, ◌<>◌, Option, none, some, ◌∷◌, if◌then◌else◌, ◌==◌}
use webca.Common.Text.{truthy}
use webca.Common.Decimal.{decimal}
use webca.Types.{Attachment, JsError, ResponseMetadata}
use webca.Platform.{Platform}
use webca.World.{World, write_log, error, info}

-- An optional string in a template.
abbrev pub shown : Option String → String
shown none = "undefined"
shown (some s) = s

-- JavaScript's `Error.prototype.toString`.
pub error_text : JsError → String
error_text e =
    if e.name == ""
    then e.message
    else if e.message == ""
    then e.name
    else e.name <> (": " <> e.message)

abbrev pub describe_error : Option JsError → String
describe_error none = "error=[undefined]"
describe_error (some e) = "error=[" <> (error_text e <> "]")

module _ {p : Platform} where
  unfoldable pub log_error : String → Option JsError → ResponseMetadata → World p → World p
  unfolding error_text
  log_error message e metadata = write_log error (
      message
      <> (" Error("
          <> (describe_error e
              <> (", requestId="
                  <> (shown metadata.request_id <> ("): Status: " <> decimal metadata.status))))))

  unfoldable pub download_attachment : Attachment → World p → World p
  download_attachment a w =
      write_log info
        ("successfully downloaded attachment(filename="
          <> (a.filename <> (", contentType=" <> (a.content_type <> ")"))))
        (record w {
          saved =
              record { content = a.body; type = a.content_type; filename = a.filename } ∷ w.saved;
        })

unfoldable pub create_api_error : Platform → ResponseMetadata → JsError
create_api_error p m =
    let request_identifier =
      if truthy m.request_id then " requestId=" <> shown m.request_id else "" in
    record {
      name = "Error";
      message =
          p.to_upper_case m.method
          <> (" " <> (m.url <> (" - status=" <> (decimal m.status <> request_identifier))));
    }
