-- ===== src/Pages/Translated/Form.antt =====
-- The texts of the form of a new certificate.
use webca.Common.{
  ℕ, ◌≡◌, refl, String, Bool, true, false, Option, none, some, List, [], ◌∷◌, map, All, Bool-cases,
  inl, inr,
}
use webca.Common.Decimal.{ℤ}
use webca.Constants.{rsa}
use webca.Types.{CertificateOptions, CertificateType, Certificate}
use webca.Platform.{Platform}
use webca.World.{World}
use webca.Hooks.{use_certificate_options, use_signatories}
use webca.Views.NewCertificate.{show_signatory_search, show_rsa_options}
use webca.Views.RsaOptions.{key_size_options, key_size_warning}
use webca.Views.SignatorySearch.{Search, shows_password, map_certificates_to_options}
use webca.Pages.Markup.{untranslated, missing, missing_options}
use webca.Pages.Draft.{Draft}
use webca.Pages.NewCertificate.{
  new_certificate_container, new_certificate, with_options, rsa_options, algorithm_options,
  recommendation, certificate_expiry_form, is_one, subject_options_form, signatory_search,
  password_input, name_choice, type_choice, algorithm_choice, search_part, new_certificate_skeleton,
}
use webca.Pages.Translated.Parts.{IsKnownType, missing-type_key}

abbrev pub IsKnownOption : Option String → Type 0
IsKnownOption none = Unit
IsKnownOption (some t) = IsKnownType t

-- Options of known types, with RSA as the only algorithm.
abbrev pub AreKnown : Option CertificateOptions → Type 0
AreKnown none = Unit
AreKnown (some o) =
    All (λ (t : CertificateType). IsKnownType t.name) o.types × All (λ a. a ≡ rsa) o.algorithms

recommendation_cases :
    (t : String) (bits : Option ℕ) → IsKnownType t → untranslated (recommendation t bits) ≡ []
unfolding untranslated
recommendation_cases t none known = refl
recommendation_cases t (some bits) known = rw (missing-type_key t known) refl

rsa_cases :
    {p : Platform} (t key_size : Option String) (w : World p)
    → IsKnownOption t
    → untranslated (rsa_options t key_size w) ≡ []
unfolding untranslated rsa_options key_size_options key_size_warning missing
rsa_cases none key_size w known = refl
rsa_cases (some t) key_size w known =
    rw (recommendation_cases t (key_size_warning (some t) key_size w).0 known) refl

algorithm_cases :
    {p : Platform} (algorithm t key_size : Option String) (w : World p)
    → IsKnownOption t
    → untranslated (algorithm_options algorithm t key_size w) ≡ []
unfolding untranslated algorithm_options
algorithm_cases algorithm t key_size w known = elim (Bool-cases (show_rsa_options algorithm)) [
  | inl e ↦ rw (e, rsa_cases t key_size w known) refl
  | inr e ↦ rw e refl
]

expiry_cases : (id : String) (value : ℤ) → untranslated (certificate_expiry_form id value) ≡ []
unfolding untranslated certificate_expiry_form missing
expiry_cases id value = elim (Bool-cases (is_one value)) [ inl e ↦ rw e refl | inr e ↦ rw e refl ]

names : (ns : List String) → missing_options (map name_choice ns) ≡ []
names [] = refl
names (n ∷ ns) = names ns

password_cases : (b : Bool) → untranslated (password_input b) ≡ []
unfolding untranslated missing
password_cases true = refl
password_cases false = refl

search_cases :
    (b : Bool) (certs : List Certificate) (s : Search) → untranslated (search_part b certs s) ≡ []
unfolding untranslated signatory_search missing
search_cases false certs s = refl
search_cases true certs s =
    rw (names (map_certificates_to_options certs), password_cases (shows_password s)) refl

types_known :
    (ts : List CertificateType)
    → All (λ (t : CertificateType). IsKnownType t.name) ts
    → missing_options (map type_choice ts) ≡ []
types_known [] h = refl
types_known (t ∷ ts) (ht, hts) = rw (missing-type_key t.name ht, types_known ts hts) refl

algorithms_known :
    (names : List String)
    → All (λ a. a ≡ rsa) names
    → missing_options (map algorithm_choice names) ≡ []
unfolding missing
algorithms_known [] h = refl
algorithms_known (a ∷ names) (ha, rest) = rw (ha, algorithms_known names rest) refl

options_cases :
    {p : Platform} (o : Option CertificateOptions) (d : Draft) (w : World p)
    → AreKnown o
    → IsKnownOption d.form.certificate_type
    → untranslated (with_options o d w) ≡ []
unfolding untranslated new_certificate new_certificate_skeleton missing subject_options_form
options_cases none d w known form = refl
options_cases (some o) d w (types, algorithms) form =
    rw
      (
        types_known o.types types,
        algorithms_known o.algorithms algorithms,
        search_cases (show_signatory_search d.form.certificate_type) (use_signatories w) d.search,
        algorithm_cases d.form.algorithm d.form.certificate_type d.key_size w form,
        expiry_cases "validFor" d.duration,
      )
      refl

pub untranslated-form :
    {p : Platform} (d : Draft) (w : World p)
    → AreKnown (use_certificate_options w)
    → IsKnownOption d.form.certificate_type
    → untranslated (new_certificate_container d w) ≡ []
unfolding new_certificate_container
untranslated-form d w = options_cases (use_certificate_options w) d w
