-- ===== src/System/Creation.antt =====
-- What a created certificate leaves in the tab.
use webca.Common.{
  ◌≡◌, refl, ap, ◌∙◌, String, ◌<>◌, Bool, true, false, none, some, List, [], ◌∷◌, Bool-cases, inl,
  inr, if◌then◌else◌,
}
use webca.Common.Text.{truthy}
use webca.Types.{Certificate, CertificateRequest, HttpResponse}
use webca.State.{reducer}
use webca.State.Actions.{
  AnyAction, on_certificates, select_certificate, remove_selected_signatory,
  remove_signing_certificates,
}
use webca.Platform.{Platform}
use webca.World.{World, state, dispatch, push}
use webca.Utils.ApiUtil.{shown}
use webca.Operations.{resume}
use webca.Operations.Calls.{Call, create_certificate, get_certificate_signatory}
use webca.Operations.Certificates
use webca.Containers.{on_create_success}
use webca.System.Races.{selected}

module _ {p : Platform} where
  -- What is left when the signatory's request was sent, or nothing was to be sent.
  abbrev left_signed : Certificate → World p → World p × List (Call p)
  left_signed c w = (
    dispatch (on_certificates remove_signing_certificates)
        (push ("/certificates/" <> c.id) (dispatch (on_certificates (select_certificate c)) w)),
    get_certificate_signatory (shown c.signatory_id) ∷ [],
  )

  abbrev left_unsigned : Certificate → World p → World p × List (Call p)
  left_unsigned c w = (
    dispatch (on_certificates remove_signing_certificates) (
        push ("/certificates/" <> c.id) (
          dispatch (on_certificates remove_selected_signatory)
            (dispatch (on_certificates (select_certificate c)) w))),
    [],
  )

  abbrev left : Bool → Certificate → World p → World p × List (Call p)
  left true = left_signed
  left false = left_unsigned

  created :
      (req : CertificateRequest) (c : Certificate) (r : HttpResponse Certificate) (w : World p)
      → r.body ≡ some c
      → resume (create_certificate req on_create_success) r w ≡ left (truthy c.signatory_id) c w
  unfolding resume Certificates.create_certificate on_create_success
  created req c r w e = elim (Bool-cases (truthy c.signatory_id)) [
    | inl signed ↦ rw (e, signed) refl
    | inr unsigned ↦ rw (e, unsigned) refl
  ]

  -- What the tab `w'` has of the certificate `c` after its creation; `signed` says if it has a
  -- signatory.
  abbrev pub Shows : Bool → Certificate → World p → World p × List (Call p) → Type 0
  Shows signed c w (w', calls) =
      (calls ≡ (if signed then get_certificate_signatory (shown c.signatory_id) ∷ [] else []))
      × (selected w' ≡ record {
        certificate = some c;
        signatory = if signed then (selected w).signatory else none;
      })
      × (w'.locations ≡ ("/certificates/" <> c.id) ∷ w.locations)
      × ((state w').certificates.signatories ≡ record { certificates = []; loaded = false })

  two :
      (a b : AnyAction) (path : String) (w : World p)
      → state (dispatch b (push path (dispatch a w))) ≡ reducer (reducer (state w) a) b
  two a b path w = p.get_state-dispatch _ _ ∙ ap (λ s. reducer s b) (p.get_state-dispatch _ _)

  left-Shows : (signed : Bool) (c : Certificate) (w : World p) → Shows signed c w (left signed c w)
  unfolding reducer
  left-Shows true c w =
      let e =
        two (on_certificates (select_certificate c)) (on_certificates remove_signing_certificates)
          ("/certificates/" <> c.id) w in
      (refl, ap (λ s. s.certificates.selected) e, refl, ap (λ s. s.certificates.signatories) e)
  left-Shows false c w =
      let e =
        two (on_certificates remove_selected_signatory)
          (on_certificates remove_signing_certificates) ("/certificates/" <> c.id)
          (dispatch (on_certificates (select_certificate c)) w)
        ∙ ap
            (λ s.
              reducer (reducer s (on_certificates remove_selected_signatory))
                (on_certificates remove_signing_certificates))
            (p.get_state-dispatch _ _) in
      (refl, ap (λ s. s.certificates.selected) e, refl, ap (λ s. s.certificates.signatories) e)

  -- When the request of the form of a new certificate is answered with the certificate `c`, the tab
  -- goes to the page of `c`, with `c` selected. If `c` has a signatory, it is asked for, and the
  -- selected signatory stays the one before; if not, nothing is asked for and no signatory is
  -- selected. The signatories of the search are emptied and marked as not loaded.
  pub certificate_created :
      (req : CertificateRequest) (c : Certificate) (r : HttpResponse Certificate) (w : World p)
      → r.body ≡ some c
      → Shows (truthy c.signatory_id) c w (resume (create_certificate req on_create_success) r w)
  certificate_created req c r w e =
      rw (created req c r w e) (left-Shows (truthy c.signatory_id) c w)
