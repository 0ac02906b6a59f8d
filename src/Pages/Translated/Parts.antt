-- ===== src/Pages/Translated/Parts.antt =====
-- The components whose texts depend on data.
use mathlib.Core.List.{append_assoc, append-nil}
use webca.Common.{
  ◌≡◌, refl, sym, ap, ◌∙◌, ◌⊎◌, inl, inr, String, ◌<>◌, Option, none, some, List, [], ◌∷◌, ◌++◌,
  is_some, if◌then◌else◌, All, Bool-cases,
}
use webca.Common.Text.{truthy}
use webca.Constants.{root_ca, intermediate_ca, end_certificate}
use webca.Types.{Account, User, ErrorInfo, Certificate, CertificateSubject, Certificates}
use webca.Platform.{Platform}
use webca.World.{World, state}
use webca.Pages.Gesture.{Gesture}
use webca.Pages.Markup.{Node, untranslated, all_untranslated, each, missing}
use webca.Hooks.{use_account}
use webca.Pages.Display.{date_time}
use webca.Pages.Account.{
  account_page, account_parts, account_details, user_management_container, new_invitation_container,
}
use webca.Pages.Navigation.{
  home, side_menu, settings, settings_of, user_details, alert, error_notification,
}
use webca.Pages.Access.{login_container, sign_up_container}
use webca.Pages.CertificateList.{type_key, certificate_list, certificate_row, listed}
use webca.Pages.CertificateDetails.{certificate_subject_details, subject_item, entry}

-- The three types that the translations know.
abbrev pub IsKnownType : String → Type 0
IsKnownType t = (t ≡ root_ca) ⊎ ((t ≡ intermediate_ca) ⊎ (t ≡ end_certificate))

pub missing-type_key : (t : String) → IsKnownType t → missing (type_key t) ≡ []
unfolding missing
missing-type_key t (inl e) = rw e refl
missing-type_key t (inr (inl e)) = rw e refl
missing-type_key t (inr (inr e)) = rw e refl

pub untranslated-login : untranslated login_container ≡ []
unfolding untranslated login_container missing
untranslated-login = refl

pub untranslated-sign_up : untranslated sign_up_container ≡ []
unfolding untranslated sign_up_container missing
untranslated-sign_up = refl

-- The parts of a list.
pub untranslated-each {ℓ} :
    {A : Type ℓ} (f : A → Node) (P : A → Type 0) (xs : List A)
    → ((x : A) → P x → untranslated (f x) ≡ [])
    → All P xs
    → all_untranslated (each f xs) ≡ []
unfolding untranslated
untranslated-each f P [] k h = refl
untranslated-each f P (x ∷ xs) k (hx, hs) = rw (k x hx, untranslated-each f P xs k hs) refl

pub untranslated-date_time : (value : Option String) → untranslated (date_time value) ≡ []
unfolding untranslated date_time
untranslated-date_time value = elim (Bool-cases (truthy value)) [
  | inl e ↦ rw e refl
  | inr e ↦ rw e refl
]

account_cases : (a : Option Account) → untranslated (account_parts a) ≡ []
unfolding untranslated account_details user_management_container missing
account_cases none = refl
account_cases (some account) = rw (untranslated-date_time (some account.created_at)) refl

pub untranslated-account : {p : Platform} (w : World p) → untranslated (account_page w) ≡ []
unfolding account_page untranslated missing
untranslated-account w = account_cases (use_account w)

pub untranslated-new_invitation : untranslated new_invitation_container ≡ []
unfolding untranslated new_invitation_container missing
untranslated-new_invitation = refl

pub untranslated-home : untranslated home ≡ []
unfolding untranslated home missing
untranslated-home = refl

pub untranslated-side_menu : untranslated side_menu ≡ []
unfolding untranslated side_menu missing
untranslated-side_menu = refl

settings_cases : (u : Option User) → untranslated (settings_of u) ≡ []
unfolding untranslated user_details missing
settings_cases none = refl
settings_cases (some user) = refl

pub untranslated-settings : {p : Platform} (w : World p) → untranslated (settings w) ≡ []
unfolding settings untranslated missing
untranslated-settings w = settings_cases (state w).user.user

alert_cases : (gs : List Gesture) (e : Option ErrorInfo) → untranslated (alert gs e) ≡ []
unfolding untranslated
alert_cases gs none = refl
alert_cases gs (some error) = refl

pub untranslated-notification :
    {p : Platform} (w : World p) → untranslated (error_notification w) ≡ []
unfolding error_notification untranslated missing
untranslated-notification w = alert_cases _ (state w).error.error

row-untranslated :
    (select : String → List Gesture) (c : Certificate)
    → IsKnownType c.type
    → untranslated (certificate_row select c) ≡ []
unfolding untranslated certificate_row
row-untranslated select c known =
    rw
      (
        missing-type_key c.type known,
        untranslated-date_time (some c.created_at),
        untranslated-date_time (some c.expires_at),
      )
      refl

pub untranslated-list :
    (certs : Certificates) (select : String → List Gesture) (create_new : List Gesture)
    → All (λ (c : Certificate). IsKnownType c.type) (listed certs.items)
    → untranslated (certificate_list certs select create_new) ≡ []
unfolding untranslated certificate_list missing
untranslated-list certs select create_new known =
    rw
      (untranslated-each (certificate_row select) (λ (c : Certificate). IsKnownType c.type)
        (listed certs.items) (row-untranslated select) known)
      refl

each-append :
    (xs ys : List (String × String))
    → all_untranslated (each subject_item (xs ++ ys))
      ≡ all_untranslated (each subject_item xs) ++ all_untranslated (each subject_item ys)
unfolding untranslated
each-append [] ys = refl
each-append (x ∷ xs) ys =
    ap (λ l. untranslated (subject_item x) ++ l) (each-append xs ys)
    ∙ sym (append_assoc (untranslated (subject_item x)) _ _)

-- The items of an entry that may be there, in front of the others.
abbrev items : String → Option String → List String
items key value = all_untranslated (each subject_item (entry key value))

items_known :
    (key : String) (value : Option String)
    → missing ("certificateSubjectDetails." <> key) ≡ []
    → items key value ≡ []
unfolding untranslated
items_known key none h = refl
items_known key (some v) h = rw h refl

items_state :
    (value : Option String)
    → items "state" value ≡ (if is_some value then "certificateSubjectDetails.state" ∷ [] else [])
unfolding untranslated missing
items_state none = refl
items_state (some v) = refl

-- An entry whose label has a message leaves the rest.
skip :
    (key : String) (value : Option String) (rest : List (String × String))
    → missing ("certificateSubjectDetails." <> key) ≡ []
    → all_untranslated (each subject_item (entry key value ++ rest))
      ≡ all_untranslated (each subject_item rest)
skip key value rest h =
    each-append (entry key value) rest
    ∙ ap (λ l. l ++ all_untranslated (each subject_item rest)) (items_known key value h)

-- The description of a certificate's subject shows one text that has no message, the label of the
-- state, if the subject has a state; all other labels have messages.
pub untranslated-subject :
    (s : CertificateSubject)
    → untranslated (certificate_subject_details (some s))
      ≡ (if is_some s.state then "certificateSubjectDetails.state" ∷ [] else [])
unfolding untranslated certificate_subject_details missing
untranslated-subject s =
    skip "country" s.country _ refl
    ∙ (each-append (entry "state" s.state) _
        ∙ (ap (λ l. items "state" s.state ++ l)
              (skip "locality" s.locality _ refl
                ∙ (skip "organization" s.organization _ refl
                    ∙ (skip "organizationalUnit" s.organizational_unit _ refl
                        ∙ items_known "email" s.email refl)))
            ∙ (append-nil (items "state" s.state) ∙ items_state s.state)))
