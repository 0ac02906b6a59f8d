-- ===== src/Pages/Draft/Laws.antt =====
-- What the gestures of the page of a new certificate keep.
use webca.Common.{
  ap, ◌==◌, arith, eq_iff, ℕ, ◌≡◌, refl, sym, ◌⊎◌, inl, inr, String, Bool, true, false, Option,
  none, some, List, ◌&&◌, if◌then◌else◌, Bool-cases,
}
use webca.Common.Decimal.{parse_int}
use webca.Types.{CertificateOptions, Certificate, Signatory}
use webca.Platform.{Platform}
use webca.World.{World}
use webca.Hooks.{use_certificate_options}
use webca.Views.NewCertificate
use webca.Views.NewCertificate.{
  Form, show_signatory_search, show_rsa_options, picks_algorithm, picks_type,
}
use webca.Views.SignatorySearch
use webca.Views.SignatorySearch.Laws.{IsCurrent, handle-IsCurrent, initial-IsCurrent}
use webca.Constants.{end_certificate, intermediate_ca, rsa}
use mathlib.Core.Bool.{true≢false}
use webca.Views.SignatorySearch.{Search, selects, types_password, focuses, shows_password}
use webca.Pages.Gesture.{Gesture, changes_form, changes_search, picks_key_size, types_duration}
use webca.Pages.Markup.{Offers}
use webca.Pages.Draft.{Draft, on_change, with_form, change}
use webca.Pages.NewCertificate.{
  new_certificate_container, new_certificate, new_certificate_skeleton, with_options,
  algorithm_options, certificate_expiry_form, subject_options_form, signatory_search, search_part,
  password_input, recommendation,
}

-- The types of certificates that need a signatory.
abbrev pub NeedsSignatory : Option String → Type 0
NeedsSignatory type = (type ≡ some end_certificate) ⊎ (type ≡ some intermediate_ca)

-- The signatory that the form submits is the one that the search has, when its id and its password are
-- filled in; the search has an id only for a type that needs a signatory; and a key size is chosen
-- only for RSA.
pub record IsInStep (d : Draft) : Type 0 where
  pub signatory : IsCurrent d.search d.form.signatory
  pub searched : (d.search.id ≡ none) ⊎ NeedsSignatory d.form.certificate_type
  pub key_size : (d.key_size ≡ none) ⊎ (d.form.algorithm ≡ some rsa)

-- After the gesture, the form is in step.
abbrev pub Keeps : Draft → Gesture → Type 0
Keeps d g = IsInStep (change d g)

shown-NeedsSignatory :
    (type : Option String) → show_signatory_search type ≡ true → NeedsSignatory type
unfolding show_signatory_search
shown-NeedsSignatory none h = absurd (true≢false (sym h))
shown-NeedsSignatory (some s) h = elim (Bool-cases (s == end_certificate)) [
  | inl e ↦ inl (ap some (equal s end_certificate e))
  | inr e ↦ elim (Bool-cases (s == intermediate_ca)) [
    | inl e' ↦ inr (ap some (equal s intermediate_ca e'))
    | inr e' ↦ absurd (true≢false (sym (rw (e, e') at h)))
  ]
]
  where
    equal : (s t : String) → (s == t) ≡ true → s ≡ t
    equal s t e = ground (arith, eq_iff s t)

shown-rsa : (algorithm : Option String) → show_rsa_options algorithm ≡ true → algorithm ≡ some rsa
unfolding show_rsa_options
shown-rsa none h = absurd (true≢false (sym h))
shown-rsa (some s) h = ap some (ground (arith, eq_iff s rsa))

-- The search after the type has changed from one that shows it, or does not, to one that does, or does
-- not.
shown_search :
    (old new : Bool) (s : Search) (signatory : Option Signatory) (type : Option String)
    → IsCurrent s signatory
    → (new ≡ true → NeedsSignatory type)
    → let t = if old && new then s else SignatorySearch.initial in
      IsCurrent t signatory × ((t.id ≡ none) ⊎ NeedsSignatory type)
shown_search true true s signatory type h k = (h, inr (k refl))
shown_search false new s signatory type h k = (initial-IsCurrent signatory, inl refl)
shown_search true false s signatory type h k = (initial-IsCurrent signatory, inl refl)

kept_key_size :
    (b : Bool) (chosen algorithm : Option String)
    → (b ≡ true → algorithm ≡ some rsa)
    → ((if b then chosen else none) ≡ none) ⊎ (algorithm ≡ some rsa)
kept_key_size true chosen algorithm h = inr (h refl)
kept_key_size false chosen algorithm h = inl refl

with_form-IsInStep :
    (f : Form) (d : Draft) → IsInStep d → f.signatory ≡ d.form.signatory → IsInStep (with_form f d)
unfolding with_form
with_form-IsInStep f d h same =
    let (current, searched) =
      shown_search (show_signatory_search d.form.certificate_type)
        (show_signatory_search f.certificate_type) d.search f.signatory f.certificate_type
        (rw same h.signatory) (shown-NeedsSignatory f.certificate_type) in
    record {
      signatory = current;
      searched = searched;
      key_size =
          kept_key_size (show_rsa_options f.algorithm) d.key_size f.algorithm
            (shown-rsa f.algorithm);
    }

pub type-Keeps :
    (value : String) (d : Draft) → IsInStep d → Keeps d (changes_form (picks_type value))
unfolding change NewCertificate.handle NewCertificate.select_certificate_type
type-Keeps value d h = with_form-IsInStep _ d h refl

pub algorithm-Keeps :
    (value : String) (d : Draft) → IsInStep d → Keeps d (changes_form (picks_algorithm value))
unfolding change NewCertificate.handle NewCertificate.select_algorithm
algorithm-Keeps value d h = with_form-IsInStep _ d h refl

search-Keeps :
    (i : SignatorySearch.Input) (d : Draft)
    → IsInStep d
    → show_signatory_search d.form.certificate_type ≡ true
    → Keeps d (changes_search i)
unfolding change
search-Keeps i d h is_shown = record {
  signatory = handle-IsCurrent d.search d.form.signatory i h.signatory;
  searched = inr (shown-NeedsSignatory d.form.certificate_type is_shown);
  key_size = h.key_size;
}

key_size-Keeps :
    (value : String) (d : Draft)
    → IsInStep d
    → show_rsa_options d.form.algorithm ≡ true
    → Keeps d (picks_key_size value)
unfolding change
key_size-Keeps value d h is_shown = record {
  signatory = h.signatory;
  searched = h.searched;
  key_size = inr (shown-rsa d.form.algorithm is_shown);
}

duration-Keeps : (typed : String) (d : Draft) → IsInStep d → Keeps d (types_duration typed)
unfolding change on_change
duration-Keeps typed d h =
    elim (parse_int typed)
      as (λ o.
        IsInStep
          (elim o as (λ _. Draft) [ none ↦ d | some years ↦ record d { duration = years } ])) [
            | none ↦ h
            | some years ↦ record {
              signatory = h.signatory;
              searched = h.searched;
              key_size = h.key_size;
            }
          ]

-- The parts of the page.
recommendation-Keeps :
    (type : String) (bits : Option ℕ) (d : Draft) → Offers (Keeps d) (recommendation type bits)
unfolding Offers
recommendation-Keeps type none d = tt
recommendation-Keeps type (some bits) d = search

rsa-Keeps :
    {p : Platform} (d : Draft) (w : World p)
    → IsInStep d
    → Offers (Keeps d) (algorithm_options d.form.algorithm d.form.certificate_type d.key_size w)
unfolding Offers algorithm_options change
rsa-Keeps d w h = elim (Bool-cases (show_rsa_options d.form.algorithm)) [
  | inl rsa ↦ rw rsa (search (key_size-Keeps, rsa, recommendation-Keeps))
  | inr other ↦ rw other tt
]

password-Keeps :
    (b : Bool) (d : Draft)
    → IsInStep d
    → show_signatory_search d.form.certificate_type ≡ true
    → Offers (Keeps d) (password_input b)
unfolding Offers
password-Keeps false d h is_shown = tt
password-Keeps true d h is_shown = search (search-Keeps, is_shown)

search_part-Keeps :
    (certs : List Certificate) (d : Draft)
    → IsInStep d
    → Offers (Keeps d) (search_part (show_signatory_search d.form.certificate_type) certs d.search)
unfolding Offers signatory_search
search_part-Keeps certs d h = elim (Bool-cases (show_signatory_search d.form.certificate_type)) [
  | inl e ↦ rw e (search (search-Keeps, e, password-Keeps))
  | inr e ↦ rw e tt
]

options-Keeps :
    {p : Platform} (o : Option CertificateOptions) (d : Draft) (w : World p)
    → IsInStep d
    → Offers (Keeps d) (with_options o d w)
unfolding Offers new_certificate new_certificate_skeleton certificate_expiry_form
    subject_options_form change
options-Keeps none d w h = search
options-Keeps (some choices) d w h =
    search (type-Keeps, algorithm-Keeps, duration-Keeps, search_part-Keeps, rsa-Keeps)

-- Every gesture that the page of a new certificate offers, whatever the options and the signatories
-- in the store are, leads from a form in step to a form in step.
pub new_certificate_container-IsInStep :
    {p : Platform} (d : Draft) (w : World p)
    → IsInStep d
    → Offers (λ g. IsInStep (change d g)) (new_certificate_container d w)
unfolding new_certificate_container
new_certificate_container-IsInStep d w h = options-Keeps (use_certificate_options w) d w h
