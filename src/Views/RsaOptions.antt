-- ===== src/Views/RsaOptions.antt =====
-- certificates/components/NewCertificate/RSAOptions.tsx: the offered key sizes, and the warning.
pub mod Laws
use webca.Common.{
  ℕ, String, ◌<>◌, Bool, true, false, not, ◌&&◌, Option, none, some, List, map, if◌then◌else◌, leb,
  is_some,
}
use webca.Common.Text.{truthy}
use webca.Common.Decimal.{ℤ, pos, negsuc, decimal, parse_int}
use webca.Types.{SelectOption}
use webca.Platform.{Platform}
use webca.World.{World}
use webca.Utils.ApiUtil.{shown}
use webca.Utils.RsaUtil.{key_sizes, suggest_key_size}

abbrev pub key_size_option : ℕ → SelectOption
key_size_option bits = record { id = decimal bits; text = decimal bits <> " bits" }

unfoldable pub key_size_options : List SelectOption
unfolding key_sizes
key_size_options = map key_size_option key_sizes

-- `n >= bound` for the result of `parseInt`; it fails for `NaN`.
abbrev pub at_least : Option ℤ → ℕ → Bool
at_least none bound = false
at_least (some (pos n)) bound = leb bound n
at_least (some (negsuc n)) bound = false

unfoldable pub sufficient_key_size : Option String → ℕ → Bool
sufficient_key_size selected suggested =
    if truthy selected then at_least (parse_int (shown selected)) suggested else false

-- What the component shows of the key size: the suggestion that the warning names, if there is a
-- warning. The certificate's type is that of the form.
unfoldable pub key_size_warning :
    {p : Platform} → Option String → Option String → World p → Option ℕ × World p
unfolding suggest_key_size sufficient_key_size
key_size_warning certificate_type key_size w =
    if truthy certificate_type
    then (let (suggested, w') = suggest_key_size (shown certificate_type) w in
        (if sufficient_key_size key_size suggested then none else some suggested, w'))
    else (none, w)
