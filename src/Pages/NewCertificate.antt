-- ===== src/Pages/NewCertificate.antt =====
-- modules/certificates: NewCertificateContainer.tsx, the form of NewCertificate.tsx and its parts,
-- RSAOptions.tsx, AlgorithmOptions.tsx, CertificateExpiryForm.tsx, SubjectOptionsForm.tsx, the
-- skeleton and SignatorySearch.tsx.
use webca.Common.{
  ℕ, String, ◌<>◌, Bool, true, false, Option, none, some, List, [], ◌∷◌, map, if◌then◌else◌, eqb,
}
use webca.Common.Decimal.{ℤ, pos, negsuc, decimal}
use webca.Common.Dict.{Dict, lookup}
use webca.Constants.{password_min_length}
use webca.Types.{CertificateOptions, CertificateType, Certificate, CertificateRequest, SelectOption}
use webca.Utils.ApiUtil.{shown}
use webca.Utils.TimeUtil.{Years, number}
use webca.Platform.{Platform}
use webca.World.{World}
use webca.Hooks.{use_fetch_certificate_options, use_fetch_signatories}
use webca.System.{requests_certificate}
use webca.Views.NewCertificate.{
  Form, Values, picks_algorithm, picks_type, show_signatory_search, show_rsa_options,
}
use webca.Views.NewCertificate as NewCertificateForm
use webca.Views.RsaOptions.{key_size_options, key_size_warning}
use webca.Views.SignatorySearch.{
  Search, selects, types_password, focuses, shows_password, map_certificates_to_options,
}
use webca.Pages.Gesture.{
  Gesture, does, on_select, changes_form, changes_search, picks_key_size, types_duration,
}
use webca.Pages.Markup.{
  Node, Choice, nothing, message, text, tag, named, translated, plain, options, on_text, rules,
}
use webca.Pages.Fields.{field, required, item, input, submit_button, form}
use webca.Pages.Display.{dropdown}
use webca.Pages.CertificateList.{type_key}
use webca.Pages.Draft.{Draft}

abbrev pub choice_of : SelectOption → Choice
choice_of o = record { id = o.id; text = plain o.text }

-- `We recommend a key size of … bits for a …`, with the message of the type's name.
abbrev pub recommendation : String → Option ℕ → Node
recommendation type none = nothing
recommendation type (some bits) = tag "p" [] (
    text ("We recommend a key size of " <> (decimal bits <> " bits for a "))
    ∷ message (type_key type)
    ∷ [])

-- `RSAOptions`, with `onSelectKeySize`
unfoldable pub rsa_options : {p : Platform} → Option String → Option String → World p → Node
unfolding key_size_options key_size_warning
rsa_options certificate_type key_size w = tag "div" [] (
    tag "h3" [] (message "rsaOptions.title" ∷ [])
    ∷ tag "Form.Item"
        (named "name" (plain "rsaKeySize")
          ∷ named "label" (translated "rsaOptions.keySize-label")
          ∷ rules (required "rsaOptions.keySize-required" ∷ [])
          ∷ [])
        (dropdown "rsaOptions.keySize-placeholder" (map choice_of key_size_options)
            (λ value. picks_key_size value ∷ on_select "rsaKeySize" value)
          ∷ [])
    ∷ recommendation (shown certificate_type) (key_size_warning certificate_type key_size w).0
    ∷ [])

unfoldable pub algorithm_options :
    {p : Platform} → Option String → Option String → Option String → World p → Node
unfolding rsa_options
algorithm_options algorithm certificate_type key_size w =
    if show_rsa_options algorithm then rsa_options certificate_type key_size w else nothing

-- `suffixKey`
abbrev pub is_one : ℤ → Bool
is_one (pos n) = eqb n 1
is_one (negsuc n) = false

abbrev pub suffix_key : ℤ → String
suffix_key value =
    if is_one value
    then "certificateExpiry.validFor-timeUnit-singular"
    else "certificateExpiry.validFor-timeUnit-plural"

unfoldable pub certificate_expiry_form : String → ℤ → Node
certificate_expiry_form valid_for_id value =
    tag "Form.Item"
      (named "name" (plain valid_for_id)
        ∷ named "label" (translated "certificateExpiry.validFor-label")
        ∷ rules (record (required "certificateExpiry.validFor-required") { min = some 1 } ∷ [])
        ∷ [])
      (tag "Input"
          (named "suffix" (translated (suffix_key value))
            ∷ on_text "onChange" (λ typed. types_duration typed ∷ [])
            ∷ [])
          []
        ∷ [])

unfoldable pub subject_options_form : Node
subject_options_form = tag "Fragment" [] (
    tag "h3" [] (message "newCertificate.subject-title" ∷ [])
    ∷ item "commonName" (required "newCertificate.subject.commonName-required")
        (input "Input" "newCertificate.subject.commonName-placeholder" ∷ [])
    ∷ [])

abbrev pub password_input : Bool → Node
password_input false = nothing
password_input true =
    tag "Input.Password"
      (named "placeholder" (translated "signatorySearch.password-placeholder")
        ∷ on_text "onChange" (λ typed. changes_search (types_password typed) ∷ [])
        ∷ [])
      []

abbrev pub name_choice : String → Choice
name_choice name = record { id = name; text = plain name }

unfoldable pub signatory_search : List Certificate → Search → Node
unfolding map_certificates_to_options
signatory_search signatories s = tag "div" [] (
    tag "h3" [] (message "signatorySearch.title" ∷ [])
    ∷ tag "AutoComplete"
        (options (map name_choice (map_certificates_to_options signatories))
          ∷ on_text "onSelect" (λ value. changes_search (selects signatories value) ∷ [])
          ∷ on_text "onFocus" (λ event. changes_search focuses ∷ [])
          ∷ on_text "onChange" (λ typed. changes_search focuses ∷ [])
          ∷ [])
        (input "Input.Search" "signatorySearch.search-placeholder" ∷ [])
    ∷ password_input (shows_password s)
    ∷ [])

-- The values of the form's items. The duration starts as the number 1, and is a text once it is
-- typed.
abbrev pub valid_for_of : Option String → Years
valid_for_of none = number (pos 1)
valid_for_of (some typed) = Years.text typed

abbrev pub values_of : Dict → Values
values_of values = record {
  name = field "name" values;
  type = field "type" values;
  algorithm = field "algorithm" values;
  common_name = field "commonName" values;
  password = field "password" values;
  rsa_key_size = lookup "rsaKeySize" values;
  valid_for = valid_for_of (lookup "validFor" values);
}

-- `typeOptions` and `algoOptions`
abbrev pub type_choice : CertificateType → Choice
type_choice t = record { id = t.name; text = translated (type_key t.name) }

abbrev pub algorithm_choice : String → Choice
algorithm_choice a = record { id = a; text = translated ("certificate.algorithm-" <> a) }

-- `selectCertificateType` and `selectAlgorithm`
abbrev pub selects_type : String → List Gesture
selects_type value = changes_form (picks_type value) ∷ on_select "type" value

abbrev pub selects_algorithm : String → List Gesture
selects_algorithm value = changes_form (picks_algorithm value) ∷ on_select "algorithm" value

abbrev pub search_part : Bool → List Certificate → Search → Node
search_part false signatories s = nothing
search_part true signatories s = signatory_search signatories s

-- `NewCertificate`; `onFinish` submits the request of the form's state and values.
unfoldable pub new_certificate :
    {p : Platform}
    → CertificateOptions
    → (CertificateRequest → List Gesture)
    → Draft
    → World p
    → Node
unfolding algorithm_options certificate_expiry_form subject_options_form signatory_search
new_certificate choices submit d w = tag "div" [] (
    tag "h1" [] (message "newCertificate.title" ∷ [])
    ∷ form (λ values. submit (NewCertificateForm.on_finish d.form (values_of values) w).0)
        "Certificate request input failed. Error: "
        (item "name" (required "newCertificate.name-required")
            (input "Input" "newCertificate.name-placeholder" ∷ [])
          ∷ item "type" (required "newCertificate.type-required") (
              dropdown "newCertificate.type-placeholder" (map type_choice choices.types)
                selects_type
              ∷ [])
          ∷ item "algorithm" (required "newCertificate.algorithm-required") (
              dropdown "newCertificate.algorithm-placeholder"
                (map algorithm_choice choices.algorithms) selects_algorithm
              ∷ [])
          ∷ search_part (show_signatory_search d.form.certificate_type) (use_fetch_signatories w).0
              d.search
          ∷ algorithm_options d.form.algorithm d.form.certificate_type d.key_size w
          ∷ certificate_expiry_form "validFor" d.duration
          ∷ subject_options_form
          ∷ item "password"
              (record (required "newCertificate.password-required") {
                min = some password_min_length;
              })
              (input "Input.Password" "newCertificate.password-placeholder" ∷ [])
          ∷ submit_button "newCertificate.button"
          ∷ [])
    ∷ [])

unfoldable pub new_certificate_skeleton : Node
new_certificate_skeleton =
    tag "div" [] (tag "h1" [] (message "newCertificate.title" ∷ []) ∷ tag "Skeleton" [] [] ∷ [])

abbrev pub with_options : {p : Platform} → Option CertificateOptions → Draft → World p → Node
with_options none d w = new_certificate_skeleton
with_options (some choices) d w =
    new_certificate choices (λ req. does (requests_certificate req) ∷ []) d w

-- `NewCertificateContainer`
unfoldable pub new_certificate_container : {p : Platform} → Draft → World p → Node
unfolding new_certificate new_certificate_skeleton
new_certificate_container d w = with_options (use_fetch_certificate_options w).0 d w
