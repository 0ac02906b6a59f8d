-- ===== src/Tests/ViewTests.antt =====
-- The theorems about the components of the pages and the computations below them, at concrete inputs.
use webca.Common.{
  leb, map, ltb, ◌≡◌, refl, true, false, Option, none, some, List, [], ◌∷◌, if◌then◌else◌,
}
use webca.Common.Decimal.{decimal}
use webca.Constants.{error_display_time_ms, root_ca, intermediate_ca}
use webca.Types.{ErrorInfo, Certificate}
use webca.Types.{Signatory}
use webca.Utils.ApiUtil.{shown}
use webca.Utils.TimeUtil.{text}
use webca.Utils.RsaUtil.{suggest_key_size}
use webca.Views.RsaOptions.{key_size_options, key_size_warning}
use webca.Views.RsaOptions.Laws.{offers, suggest_key_size-offered}
use webca.Views.SignatorySearch
use webca.Views.SignatorySearch.Laws.{run-IsCurrent}
use webca.Views.NewCertificate
use webca.Views.NewCertificate.Laws.{on_finish-signatory}
use webca.Views.ErrorNotification
use webca.Views.ErrorNotification.Laws.{run-registers, run-IsTimed, total, IsTimed}
use webca.Views.PrivateKeyModal
use webca.Views.PrivateKeyModal.Laws.{shows-run, shows, open_after, downloading_after, error_after}
use webca.Tests.Samples.{root, other_root, blank, certificate_of}

suggest_key_size-offered_example :
    (offers key_size_options (decimal (suggest_key_size intermediate_ca blank).0) ≡ true)
    × ((key_size_warning (some intermediate_ca) (some (decimal 2048)) blank).0 ≡ (
        if leb (suggest_key_size intermediate_ca blank).0 2048
        then none
        else some (suggest_key_size intermediate_ca blank).0))
suggest_key_size-offered_example = suggest_key_size-offered intermediate_ca 2048 blank refl

-- The password is typed, another signatory is picked, and the password is typed again.
abbrev searched : List SignatorySearch.Input
searched =
    SignatorySearch.selects (root ∷ other_root ∷ []) "my root"
    ∷ SignatorySearch.types_password "one"
    ∷ SignatorySearch.focuses
    ∷ SignatorySearch.selects (root ∷ other_root ∷ []) "other root"
    ∷ []

abbrev found : SignatorySearch.Search × Option Signatory
found = SignatorySearch.run SignatorySearch.initial none searched

run-IsCurrent_example :
    found.1 ≡ some (record { id = shown found.0.id; password = shown found.0.password })
unfolding SignatorySearch.run
run-IsCurrent_example = run-IsCurrent none searched refl refl

abbrev namesake : Certificate
namesake = certificate_of "other-id" "my root" root_ca none

-- Two authorities of one name: the second cannot be picked.
first_of_namesakes :
    (SignatorySearch.on_select (root ∷ namesake ∷ []) namesake.name SignatorySearch.initial).0.id
    ≡ some root.id
unfolding SignatorySearch.on_select SignatorySearch.find_id
first_of_namesakes = refl

abbrev form_values : NewCertificate.Values
form_values = record {
  name = "my ca";
  type = intermediate_ca;
  algorithm = "RSA";
  common_name = "ca";
  password = "secret";
  rsa_key_size = some "8192";
  valid_for = text "2";
}

abbrev root_authority : Signatory
root_authority = record { id = "root-id"; password = "secret" }

abbrev intermediate_form : NewCertificate.Form
intermediate_form = record NewCertificate.initial { certificate_type = some intermediate_ca }

on_finish-signatory_example :
    (NewCertificate.on_finish
      (NewCertificate.run intermediate_form
        (NewCertificate.finds root_authority ∷ NewCertificate.picks_type root_ca ∷ []))
      (record form_values { type = root_ca })
      blank).0.signatory
    ≡ some root_authority
unfolding NewCertificate.show_signatory_search
on_finish-signatory_example =
    on_finish-signatory intermediate_form root_authority (NewCertificate.picks_type root_ca ∷ [])
      (record form_values { type = root_ca }) blank refl refl

-- The modal is opened, a wrong password is sent, and then the right one.
abbrev inputs : List PrivateKeyModal.Input
inputs =
    PrivateKeyModal.opens
    ∷ PrivateKeyModal.submits
    ∷ PrivateKeyModal.answers false
    ∷ PrivateKeyModal.types
    ∷ PrivateKeyModal.submits
    ∷ PrivateKeyModal.answers true
    ∷ []

shows-run_example :
    shows (PrivateKeyModal.run PrivateKeyModal.initial inputs)
    ≡ (open_after false inputs, downloading_after false inputs, error_after false inputs)
shows-run_example = shows-run inputs

abbrev wrong_login : ErrorInfo
wrong_login = record { info = "Wrong password"; error = record { name = "Error"; message = "401" } }

run-registers_example :
    (ErrorNotification.run ErrorNotification.initial (
      ErrorNotification.registers wrong_login
      ∷ map ErrorNotification.passes (4000 ∷ 600 ∷ []))).error
    ≡ (if ltb (total (4000 ∷ 600 ∷ [])) error_display_time_ms then some wrong_login else none)
run-registers_example = run-registers ErrorNotification.initial wrong_login (4000 ∷ 600 ∷ [])

abbrev times : List ErrorNotification.Input
times =
    ErrorNotification.registers wrong_login
    ∷ ErrorNotification.passes 4000
    ∷ ErrorNotification.registers wrong_login
    ∷ ErrorNotification.passes 600
    ∷ []

run-IsTimed_example : IsTimed (ErrorNotification.run ErrorNotification.initial times)
run-IsTimed_example = run-IsTimed times
