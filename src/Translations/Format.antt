-- ===== src/Translations/Format.antt =====
-- `useFormatedMessage` of web-app/src/translations/index.ts, with the messages that
-- web-app/src/index.tsx hands to the `IntlProvider`. `formatMessage` is that of react-intl, with what
-- it documents for a message without arguments and tags, and for a key without a message.
use Prim.Native.Char.{Char, code}
use mathlib.Core.Bool.{true≢false}
use webca.Common.{
  is_some, false, sym, ◌≡◌, refl, ap, String, Bool, true, not, ◌&&◌, ◌||◌, Option, none, some, [],
  ◌∷◌, eqb, Option-cases, Bool-cases, inl, inr, ◌==◌,
}
use webca.Common.Text.{truthy}
use webca.Common.Dict.{Dict, lookup}
use webca.Platform.{Platform}
use webca.World.{World}
use webca.Translations.En.{en_us}
use webca.Translations.{messages, get_locale, get_message}

-- The characters that mean something in a message: braces, the angle bracket, and the quote.
abbrev is_special : Char → Bool
is_special c = eqb (code c) 123 || (eqb (code c) 125 || (eqb (code c) 60 || eqb (code c) 39))

unfoldable pub is_plain : String → Bool
is_plain String.[] = true
is_plain (String.◌∷◌ c s) = let rest = is_plain s in not (is_special c) && rest

pub record Intl : Type 0 where
  pub format_message : Option Dict → String → String
  pub found :
      (messages : Dict) (key text : String)
      → lookup key messages ≡ some text
      → is_plain text ≡ true
      → truthy (some text) ≡ true
      → format_message (some messages) key ≡ text
  pub missing :
      (messages : Dict) (key : String)
      → lookup key messages ≡ none
      → format_message (some messages) key ≡ key

-- `messages[locale]`, with the locale of the app.
abbrev pub provided_messages : Option Dict
unfolding messages
provided_messages = messages get_locale

unfoldable pub use_formated_message : Intl → String → String
use_formated_message intl id = intl.format_message provided_messages id

-- A text, or the key if there is none.
abbrev pub or_key : String → Option String → String
or_key key none = key
or_key key (some text) = text

-- Every message of a table is shown as it is written.
abbrev are_verbatim : Dict → Bool
are_verbatim [] = true
are_verbatim (entry ∷ rest) =
    let others = are_verbatim rest in is_plain entry.1 && (truthy (some entry.1) && others)

both : (a b : Bool) → (a && b) ≡ true → (a ≡ true) × (b ≡ true)
both true b h = (refl, h)
both false b h = absurd (true≢false (sym h))

is_text : (a b : String) → some a ≡ some b → a ≡ b
is_text a b h = ap (or_key "") h

lookup-are_verbatim :
    (key text : String) (dict : Dict)
    → are_verbatim dict ≡ true
    → lookup key dict ≡ some text
    → (is_plain text ≡ true) × (truthy (some text) ≡ true)
unfolding lookup
lookup-are_verbatim key text [] all none_there = absurd (true≢false (ap is_some (sym none_there)))
lookup-are_verbatim key text (entry ∷ rest) all there =
    let (plain, more) = both _ _ all in
    let (filled, others) = both _ _ more in
    elim (Bool-cases (entry.0 == key)) [
      | inl here ↦ rw (sym (is_text entry.1 text (rw here at there))) (plain, filled)
      | inr further ↦ lookup-are_verbatim key text rest others (rw further at there)
    ]

en_us-are_verbatim : are_verbatim en_us ≡ true
unfolding en_us is_plain
en_us-are_verbatim = refl

-- What `useFormatedMessage` shows for a key is the message that `getMessage` finds for it, word for
-- word, and the key itself where `getMessage` finds none.
pub use_formated_message-get_message :
    (p : Platform) (intl : Intl) (key : String) (w : World p)
    → use_formated_message intl key ≡ or_key key (get_message key w).0
unfolding use_formated_message get_message messages
use_formated_message-get_message p intl key w = elim (Option-cases (lookup key en_us)) [
  | inl missing ↦ rw missing (intl.missing en_us key missing)
  | inr (text, there) ↦
      let (plain, filled) = lookup-are_verbatim key text en_us en_us-are_verbatim there in
      rw there (intl.found en_us key text there plain filled)
]
