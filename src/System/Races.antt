-- ===== src/System/Races.antt =====
-- What the order of responses can do: the selected certificate's authority, and a logout.
use webca.Common.{◌≡◌, ◌≢◌, refl, ap, ◌∙◌, String, false, none, some, [], ◌∷◌}
use webca.Common.Text.{truthy}
use webca.Types.{Certificate, SelectedCertificate, HttpResponse}
use webca.State.{reducer}
use webca.State.Actions.{
  on_certificates, select_certificate, add_selected_signatory, remove_selected_signatory,
}
use webca.Platform.{Platform}
use webca.World.{World, state, dispatch}
use webca.Operations.{resume}
use webca.Operations.Calls.{get_certificate, get_certificate_signatory}
use webca.Operations.Certificates
use webca.Operations.Failure.{resume_failure}
use webca.Hooks.{fetch_selected_certificate}
use webca.System.Invariants.{idle}
use webca.System.Steps.{event_to, response_to}
use webca.System.Session.{truthy_of_ne}
use webca.System.{System, Reach, here, next, perform, shows_certificate}

module _ {p : Platform} where
  abbrev pub selected : World p → SelectedCertificate
  selected w = (state w).certificates.selected

  get_certificate_signed :
      (id id' : String) (c : Certificate) (r : HttpResponse Certificate) (w : World p)
      → id' ≢ ""
      → c.signatory_id ≡ some id'
      → r.body ≡ some c
      → resume (get_certificate id) r w
        ≡ (dispatch (on_certificates (select_certificate c)) w, get_certificate_signatory id' ∷ [])
  unfolding resume Certificates.get_certificate
  get_certificate_signed id id' c r w ne by e = rw (e, by, truthy_of_ne id' ne) refl

  pub get_certificate_unsigned :
      (id : String) (c : Certificate) (r : HttpResponse Certificate) (w : World p)
      → truthy c.signatory_id ≡ false
      → r.body ≡ some c
      → resume (get_certificate id) r w ≡ (
        dispatch
            (on_certificates remove_selected_signatory)
            (dispatch (on_certificates (select_certificate c)) w),
        [],
      )
  unfolding resume Certificates.get_certificate
  get_certificate_unsigned id c r w by e = rw (e, by) refl

  signatory_answer :
      (id : String) (s : Certificate) (r : HttpResponse Certificate) (w : World p)
      → r.body ≡ some s
      → resume (get_certificate_signatory id) r w
        ≡ (dispatch (on_certificates (add_selected_signatory s)) w, [])
  unfolding resume Certificates.get_certificate_signatory
  signatory_answer id s r w e = rw e refl

  -- A failed request for a signatory changes nothing of what is selected.
  signatory_failure :
      (id : String) (r : HttpResponse Certificate) (w : World p)
      → r.body ≡ none
      → selected (resume (get_certificate_signatory id) r w).0 ≡ selected w
  signatory_failure id r w e =
      let f = resume_failure (get_certificate_signatory id) r w e in
      ap (λ x. selected x.0) f.0 ∙ ap (λ s. s.certificates.selected) f.1.0

  selected-select :
      (c : Certificate) (w : World p)
      → selected (dispatch (on_certificates (select_certificate c)) w)
        ≡ record { certificate = some c; signatory = (selected w).signatory }
  unfolding reducer
  selected-select c w = ap (λ s. s.certificates.selected) (p.get_state-dispatch _ _)

  selected-add :
      (c : Certificate) (w : World p)
      → selected (dispatch (on_certificates (add_selected_signatory c)) w)
        ≡ record { certificate = (selected w).certificate; signatory = some c }
  unfolding reducer
  selected-add c w = ap (λ s. s.certificates.selected) (p.get_state-dispatch _ _)

  selected-remove :
      (w : World p)
      → selected (dispatch (on_certificates remove_selected_signatory) w)
        ≡ record { certificate = (selected w).certificate; signatory = none }
  unfolding reducer
  selected-remove w = ap (λ s. s.certificates.selected) (p.get_state-dispatch _ _)

  -- The answer of the signatory behind that of the certificate.
  abbrev pub both :
      String → HttpResponse Certificate → HttpResponse Certificate → String → World p → World p
  both id r r' id' w =
      (resume (get_certificate_signatory id') r' (resume (get_certificate id) r w).0).0

  -- An answer to `getCertificate` with the certificate `c`, signed by the certificate `id'`, leads
  -- to one more request, for `id'`. Until its answer comes, and also after that if it is a failure,
  -- the tab shows `c` with the authority that it showed before; an answer with a certificate `s`
  -- makes it show `c` with the authority `s`.
  pub selected-signed :
      (id id' : String) (c s : Certificate) (r r' failed : HttpResponse Certificate) (w : World p)
      → id' ≢ ""
      → c.signatory_id ≡ some id'
      → r.body ≡ some c
      → r'.body ≡ some s
      → failed.body ≡ none
      → ((resume (get_certificate id) r w).1 ≡ get_certificate_signatory id' ∷ [])
        × (selected (resume (get_certificate id) r w).0
            ≡ record { certificate = some c; signatory = (selected w).signatory })
        × (selected (both id r failed id' w)
            ≡ record { certificate = some c; signatory = (selected w).signatory })
        × (selected (both id r r' id' w) ≡ record { certificate = some c; signatory = some s })
  selected-signed id id' c s r r' failed w ne by e e' e'' =
      let first = get_certificate_signed id id' c r w ne by e in
      let chosen = dispatch (on_certificates (select_certificate c)) w in
      (
        ap (λ x. x.1) first,
        ap (λ x. selected x.0) first ∙ selected-select c w,
        ap (λ x. selected (resume (get_certificate_signatory id') failed x.0).0) first
            ∙ (signatory_failure id' failed chosen e'' ∙ selected-select c w),
        ap (λ x. selected (resume (get_certificate_signatory id') r' x.0).0) first
            ∙ (ap (λ x. selected x.0) (signatory_answer id' s r' chosen e')
                ∙ (selected-add s chosen
                    ∙ ap
                        (λ (x : SelectedCertificate). record {
                          certificate = x.certificate;
                          signatory = some s;
                        })
                        (selected-select c w))),
      )

  shows :
      (id : String) (w : World p)
      → id ≢ ""
      → perform (shows_certificate (some id)) w ≡ (w, get_certificate id ∷ [])
  unfolding perform fetch_selected_certificate
  shows id w ne = rw (truthy_of_ne id ne) refl

  -- If a certificate `a` that is signed by the certificate `is` is shown, and then a certificate `b`
  -- that has no signatory, then the responses can come in an order after which nothing is pending
  -- and the tab shows `b` with the authority `s` that was fetched for `a`.
  pub selected_race :
      (ia ib is : String) (a b s : Certificate) (ra rb rs : HttpResponse Certificate) (w : World p)
      → ia ≢ ""
      → ib ≢ ""
      → is ≢ ""
      → a.signatory_id ≡ some is
      → truthy b.signatory_id ≡ false
      → ra.body ≡ some a
      → rb.body ≡ some b
      → rs.body ≡ some s
      → (t : System p) × Reach (idle w) t
        × (t.pending ≡ [])
        × (selected t.world ≡ record { certificate = some b; signatory = some s })
  selected_race ia ib is a b s ra rb rs w na nb ns by not_by ea eb es =
      let w₁ = dispatch (on_certificates (select_certificate a)) w in
      let w₂ = dispatch (on_certificates (select_certificate b)) w₁ in
      let w₃ = dispatch (on_certificates remove_selected_signatory) w₂ in
      let w₄ = dispatch (on_certificates (add_selected_signatory s)) w₃ in
      let showing_a =
        next here (event_to (idle w) (shows_certificate (some ia)) w _ (shows ia w na)) in
      let showing_b =
        next showing_a (event_to _ (shows_certificate (some ib)) w _ (shows ib w nb)) in
      let got_a = next showing_b (
        response_to _ (get_certificate ib ∷ []) [] (get_certificate ia) ra w₁ _ refl
          (get_certificate_signed ia is a ra w ns by ea)) in
      let got_b = next got_a (
        response_to _ (get_certificate_signatory is ∷ []) [] (get_certificate ib) rb w₃ _ refl
          (get_certificate_unsigned ib b rb w₁ not_by eb)) in
      (
        record { world = w₄; pending = [] },
        next got_b (
            response_to _ [] [] (get_certificate_signatory is) rs w₄ _ refl
              (signatory_answer is s rs w₃ es)),
        refl,
        selected-add s w₃
            ∙ ap
                (λ (x : SelectedCertificate). record {
                  certificate = x.certificate;
                  signatory = some s;
                })
                (selected-remove w₂
                  ∙ ap
                      (λ (x : SelectedCertificate). record {
                        certificate = x.certificate;
                        signatory = none;
                      })
                      (selected-select b w₁)),
      )
