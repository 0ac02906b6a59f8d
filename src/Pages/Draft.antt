-- ===== src/Pages/Draft.antt =====
-- The state behind the form of a new certificate: the `useState` of NewCertificate.tsx, RSAOptions.tsx,
-- CertificateExpiryForm.tsx and SignatorySearch.tsx. A component that is no longer shown loses its
-- state, and starts from the initial one when it is shown again.
pub mod Laws
pub mod Renders
use webca.Common.{
  ℕ, String, Bool, true, false, ◌&&◌, Option, none, some, List, [], ◌∷◌, if◌then◌else◌, eqb,
}
use webca.Common.Decimal.{ℤ, pos, negsuc, parse_int}
use webca.Views.NewCertificate
use webca.Views.NewCertificate.{Form, show_signatory_search, show_rsa_options}
use webca.Views.SignatorySearch
use webca.Views.SignatorySearch.{Search, after_call}
use webca.Pages.Gesture.{Gesture, changes_form, changes_search, picks_key_size, types_duration}

pub record Draft : Type 0 where
  pub form : Form
  pub search : Search
  pub key_size : Option String
  pub duration : ℤ

abbrev pub initial : Draft
initial = record {
  form = NewCertificate.initial;
  search = SignatorySearch.initial;
  key_size = none;
  duration = pos 1;
}

-- `onChange` of CertificateExpiryForm.tsx
unfoldable pub on_change : String → Draft → Draft
on_change typed d = elim (parse_int typed) [ none ↦ d | some years ↦ record d { duration = years } ]

-- The components that the form does not show any more lose their state.
unfoldable pub with_form : Form → Draft → Draft
with_form f d = record d {
  form = f;
  search =
      if show_signatory_search d.form.certificate_type && show_signatory_search f.certificate_type
      then d.search
      else SignatorySearch.initial;
  key_size = if show_rsa_options f.algorithm then d.key_size else none;
}

unfoldable pub change : Draft → Gesture → Draft
unfolding with_form on_change
change d (changes_form i) = with_form (NewCertificate.handle d.form i) d
change d (changes_search i) =
    let (s, call) = SignatorySearch.handle d.search i in
    record d { search = s; form = record (d.form) { signatory = after_call call d.form.signatory } }
change d (picks_key_size value) = record d { key_size = some value }
change d (types_duration typed) = on_change typed d
change d _ = d

unfoldable pub change_all : Draft → List Gesture → Draft
unfolding change
change_all d [] = d
change_all d (g ∷ gs) = change_all (change d g) gs
