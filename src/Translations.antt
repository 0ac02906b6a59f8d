-- ===== src/Translations.antt =====
-- web-app/src/translations/index.ts
pub mod En
pub mod Format
use webca.Common.{String, ◌<>◌, Option, none, some, if◌then◌else◌, ◌==◌, Bool-cases}
use webca.Common.Text.{truthy}
use webca.Common.Dict.{Dict, lookup}
use webca.Platform.{Platform}
use webca.World.{World, write_log, error}
use En.{en_us}

abbrev pub get_locale : String
get_locale = "en-US"

-- `messages[locale]`
unfoldable pub messages : String → Option Dict
messages locale = if locale == "en-US" then some en_us else none

module _ {p : Platform} where
  -- `getMessage`: the message of a key, with a log entry if there is none.
  unfoldable pub get_message : String → World p → Option String × World p
  unfolding messages
  get_message key w = elim (messages get_locale) [
    | none ↦ (none, write_log error ("No localizedMessages found for locale=" <> get_locale) w)
    | some localized_messages ↦
        let message = lookup key localized_messages in
        (
          message,
          if truthy message
              then w
              else write_log error
                  ("No message found key=" <> (key <> (" in locale=" <> get_locale))) w,
        )
  ]
