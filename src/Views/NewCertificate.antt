-- ===== src/Views/NewCertificate.antt =====
-- certificates/components/NewCertificate/NewCertificate.tsx, AlgorithmOptions.tsx: the state of the
-- form, what it shows, and the request that it submits.
pub mod Laws
use webca.Common.{
  ℕ, String, Bool, true, false, ◌||◌, Option, none, some, List, [], ◌∷◌, if◌then◌else◌, ◌==◌,
}
use webca.Common.Decimal.{ℤ, pos, parse_int}
use webca.Constants.{intermediate_ca, end_certificate, rsa}
use webca.Types.{CertificateRequest, CertificateSubject, Signatory}
use webca.Platform.{Platform}
use webca.World.{World}
use webca.Utils.RsaUtil.{suggest_key_size}
use webca.Utils.TimeUtil.{Years, years_to_days}

pub record Form : Type 0 where
  pub algorithm : Option String
  pub certificate_type : Option String
  pub signatory : Option Signatory

abbrev pub initial : Form
initial = record { algorithm = none; certificate_type = none; signatory = none }

-- The values that the form hands to `onFinish`.
pub record Values : Type 0 where
  pub name : String
  pub type : String
  pub algorithm : String
  pub common_name : String
  pub password : String
  pub rsa_key_size : Option String
  pub valid_for : Years

abbrev equals : Option String → String → Bool
equals none t = false
equals (some s) t = s == t

-- `showSignatorySearch`
unfoldable pub show_signatory_search : Option String → Bool
show_signatory_search t =
    if equals t end_certificate || equals t intermediate_ca then true else false

-- `AlgorithmOptions`: whether the options of RSA are shown.
unfoldable pub show_rsa_options : Option String → Bool
show_rsa_options algorithm = equals algorithm rsa

unfoldable pub select_algorithm : String → Form → Form
select_algorithm value f = record f { algorithm = some value }

unfoldable pub select_certificate_type : String → Form → Form
select_certificate_type value f = record f { certificate_type = some value }

-- `setSignatory`, which the search calls while it is shown.
unfoldable pub set_signatory : Signatory → Form → Form
set_signatory signatory f = record f { signatory = some signatory }

-- `parseInt` of a form value, which may be undefined.
abbrev pub parsed : Option String → Option ℤ
parsed none = none
parsed (some s) = parse_int s

-- `if (isNaN(keySize)) keySize = suggestKeySize(type)`
pub key_size_or_suggested : {p : Platform} → Option ℤ → String → World p → ℤ × World p
key_size_or_suggested (some n) type w = (n, w)
key_size_or_suggested none type w = let (bits, w') = suggest_key_size type w in (pos bits, w')

abbrev subject_of : String → CertificateSubject
subject_of common_name = record {
  common_name = common_name;
  country = none;
  state = none;
  locality = none;
  organization = none;
  organizational_unit = none;
  email = none;
}

-- `onFinish`: the request that is submitted.
unfoldable pub on_finish : {p : Platform} → Form → Values → World p → CertificateRequest × World p
unfolding key_size_or_suggested suggest_key_size
on_finish f v w =
    let (key_size, w') = key_size_or_suggested (parsed v.rsa_key_size) v.type w in
    (
      record {
        name = v.name;
        type = v.type;
        algorithm = v.algorithm;
        password = v.password;
        subject = subject_of v.common_name;
        options = ("keySize", key_size) ∷ [];
        signatory = f.signatory;
        expires_in_days = years_to_days v.valid_for;
      },
      w',
    )

-- What the user does in the form: the two dropdowns, and a signatory found by the search, which is
-- there only while it is shown.
pub data Input : Type 0 where
  picks_algorithm picks_type : String → Input
  finds : Signatory → Input

unfoldable pub handle : Form → Input → Form
unfolding select_algorithm select_certificate_type set_signatory show_signatory_search
handle f (picks_algorithm value) = select_algorithm value f
handle f (picks_type value) = select_certificate_type value f
handle f (finds signatory) =
    if show_signatory_search f.certificate_type then set_signatory signatory f else f

unfoldable pub run : Form → List Input → Form
unfolding handle
run f [] = f
run f (i ∷ is) = run (handle f i) is
