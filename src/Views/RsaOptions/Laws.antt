-- ===== src/Views/RsaOptions/Laws.antt =====
-- The suggested key size is one of those offered, and choosing it removes the warning.
use webca.Common.{
  ℕ, ◌≡◌, refl, ap, ◌∙◌, ◌*◌, String, Bool, true, false, Option, none, some, List, leb, ◌==◌, any,
  if◌then◌else◌,
}
use webca.Common.Text.{truthy}
use webca.Common.Decimal.{decimal}
use webca.Common.Decimal.RoundTrip.{parse_int-decimal, truthy-decimal}
use webca.Constants.{root_ca, intermediate_ca, end_certificate}
use webca.Types.{SelectOption}
use webca.Platform.{Platform}
use webca.World.{World}
use webca.Utils.RsaUtil.{base_key_size, listed_key_size, suggest_key_size}
use webca.Views.RsaOptions.{key_size_options, sufficient_key_size, key_size_warning}

-- The option of a key size is sufficient exactly if the size is not below the suggestion.
sufficient_key_size-decimal :
    (n bound : ℕ) → sufficient_key_size (some (decimal n)) bound ≡ leb bound n
unfolding sufficient_key_size
sufficient_key_size-decimal n bound = rw (truthy-decimal n, parse_int-decimal n) refl

-- Whether a text is the value of one of the options.
abbrev pub offers : List SelectOption → String → Bool
offers options id = any (λ o. o.id == id) options

abbrev suggestion_of : Option ℕ → ℕ
suggestion_of none = base_key_size * 2
suggestion_of (some n) = n

abbrev IsOffered : ℕ → Type 0
IsOffered n = offers key_size_options (decimal n) ≡ true

cases-IsOffered :
    (a b c : Bool)
    → IsOffered (
        suggestion_of (
          if a
          then some (8 * base_key_size)
          else if b
          then some (4 * base_key_size)
          else if c
          then some (2 * base_key_size)
          else none))
unfolding key_size_options decimal
cases-IsOffered true b c = refl
cases-IsOffered false true c = refl
cases-IsOffered false false true = refl
cases-IsOffered false false false = refl

listed-IsOffered : (type : String) → IsOffered (suggestion_of (listed_key_size type))
unfolding listed_key_size
listed-IsOffered type =
    cases-IsOffered (type == root_ca) (type == intermediate_ca) (type == end_certificate)

of_option :
    {p : Platform} (o : Option ℕ) (w w' : World p)
    → (elim o as (λ _. ℕ × World p) [ some bits ↦ (bits, w) | none ↦ (base_key_size * 2, w') ]).0
      ≡ suggestion_of o
of_option none w w' = refl
of_option (some n) w w' = refl

suggestion :
    {p : Platform} (type : String) (w : World p)
    → (suggest_key_size type w).0 ≡ suggestion_of (listed_key_size type)
unfolding suggest_key_size
suggestion type w = of_option (listed_key_size type) w _

warned :
    {p : Platform} (b c : Bool) (r : ℕ × World p) (w : World p)
    → b ≡ true
    → (if◌then◌else◌ {A = Option ℕ × World p} b (if c then none else some r.0, r.1) (none, w)).0
      ≡ (if c then none else some r.0)
warned b c r w h = rw h refl

-- Whatever the type of the certificate, known or not, unless it is empty, the dropdown offers the key size that is
-- suggested, and of the options of the sizes `n`, the warning that names the suggested size is
-- shown exactly for those that are smaller than it.
pub suggest_key_size-offered :
    {p : Platform} (type : String) (n : ℕ) (w : World p)
    → truthy (some type) ≡ true
    → let suggested = (suggest_key_size type w).0 in
      (offers key_size_options (decimal suggested) ≡ true)
      × ((key_size_warning (some type) (some (decimal n)) w).0
          ≡ (if leb suggested n then none else some suggested))
unfolding key_size_warning
suggest_key_size-offered type n w h = (
  rw (suggestion type w) (listed-IsOffered type),
  warned (truthy (some type)) (sufficient_key_size (some (decimal n)) (suggest_key_size type w).0)
        (suggest_key_size type w) w h
      ∙ ap (λ c. if c then none else some (suggest_key_size type w).0)
          (sufficient_key_size-decimal n (suggest_key_size type w).0),
)
