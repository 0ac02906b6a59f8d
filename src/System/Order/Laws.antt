-- ===== src/System/Order/Laws.antt =====
-- The store after a response, and the order of two responses.
use webca.Common.{
  ◌≡◌, ◌≢◌, refl, sym, ap, ◌∙◌, inl, inr, String, true, false, Option, none, some, ◌∷◌, Bool-cases,
  Option-cases,
}
use webca.Common.Text.{truthy}
use webca.Types.{JsError, ResponseMetadata, HttpResponse}
use webca.State.{AppState, initial_state, reducer}
use webca.State.Actions.{AnyAction, on_certificates, select_certificate}
use webca.State.History.{view_after, empty_view, run}
use webca.State.History.Areas.{selection, AreIn, run-swap}
use webca.Platform.{Platform}
use webca.World.{World, state}
use webca.Operations.{resume}
use webca.Operations.Calls.{
  Call, Answer, sign_up, login, get_user, create_invitation, get_invitation, create_certificate,
  get_certificate, get_certificate_signatory, get_certificates_by_account_id,
  get_signing_certificates, download_certificate_body, download_certificate_private_key,
  get_certificate_options,
}
use webca.Operations.Failure.{failure_state, shown_as, told_failure, resume_failure}
use webca.Operations.Users
use webca.Operations.Invitations
use webca.Operations.Certificates
use webca.Utils.ApiUtil.{download_attachment}
use webca.System.Invariants.{idle, Reach-view}
use webca.System.{System, Reach}
use webca.System.Order.{
  area, failure_actions, signatory_actions, success_actions, outcome, dispatched, IsSilent,
}

run-failure_actions :
    (p : Platform) (name : Option String) (e : Option JsError) (m : ResponseMetadata) (s : AppState)
    → run s (failure_actions p name e m) ≡ failure_state p name e m s
unfolding run reducer
run-failure_actions p none e m s = refl
run-failure_actions p (some name) e m s = refl

signatory_actions-AreIn : (id : Option String) → AreIn selection (signatory_actions id)
signatory_actions-AreIn id = elim (Bool-cases (truthy id)) [
  | inl e ↦ rw e tt
  | inr e ↦ rw e (refl, tt)
]

module _ {p : Platform} where
  told-state : (c : Call p) (w : World p) → IsSilent c → state (told_failure c w) ≡ state w
  told-state (sign_up req callback) w silent = silent false w
  told-state (login req callback) w silent = silent false w
  told-state (create_invitation req callback) w silent = silent false w
  told-state (create_certificate req callback) w silent = silent false none w
  told-state (download_certificate_private_key id password callback) w silent = silent false w
  told-state (get_user id) w silent = refl
  told-state (get_invitation id) w silent = refl
  told-state (get_certificate id) w silent = refl
  told-state (get_certificate_signatory id) w silent = refl
  told-state (get_certificates_by_account_id id) w silent = refl
  told-state (get_signing_certificates id) w silent = refl
  told-state (download_certificate_body id full) w silent = refl
  told-state get_certificate_options w silent = refl

  failed-run :
      (c : Call p) (r : HttpResponse (Answer c)) (w : World p)
      → IsSilent c
      → r.body ≡ none
      → state (resume c r w).0 ≡ run (state w) (outcome c none r.error r.metadata)
  failed-run c r w silent e =
      let (told, (kept, _)) = resume_failure c r w e in
      ap (λ x. state x.0) told
      ∙ (told-state c _ silent
          ∙ (kept ∙ sym (run-failure_actions p (shown_as c) r.error r.metadata (state w))))

  load_signatory-run :
      (id : Option String) (w : World p)
      → state (Certificates.load_signatory id w).0 ≡ run (state w) (signatory_actions id)
  unfolding Certificates.load_signatory run
  load_signatory-run id w = elim (Bool-cases (truthy id)) [
    | inl e ↦ rw e refl
    | inr e ↦ rw e (p.get_state-dispatch _ _)
  ]

  selected-run :
      (id : Option String) (a : AnyAction) (w v : World p)
      → state v ≡ reducer (state w) a
      → state (Certificates.load_signatory id v).0 ≡ run (state w) (a ∷ signatory_actions id)
  unfolding run
  selected-run id a w v e = load_signatory-run id v ∙ ap (λ s. run s (signatory_actions id)) e

  succeeded-run :
      (c : Call p) (r : HttpResponse (Answer c)) (w : World p) (body : Answer c)
      → IsSilent c
      → r.body ≡ some body
      → state (resume c r w).0 ≡ run (state w) (success_actions c body)
  unfolding resume run Users.sign_up Users.login Users.get_user Invitations.create_invitation
      Invitations.get_invitation Certificates.create_certificate Certificates.get_certificate
      Certificates.get_certificate_signatory Certificates.get_certificates_by_account_id
      Certificates.get_signing_certificates Certificates.download_certificate_body
      Certificates.download_certificate_private_key Certificates.get_certificate_options
      download_attachment
  succeeded-run (sign_up req callback) r w body silent e =
      rw e (silent true _ ∙ p.get_state-dispatch _ _)
  succeeded-run (login req callback) r w body silent e =
      rw e (silent true _ ∙ p.get_state-dispatch _ _)
  succeeded-run (get_user id) r w body silent e = rw e (p.get_state-dispatch _ _)
  succeeded-run (create_invitation req callback) r w body silent e = rw e (silent true _)
  succeeded-run (get_invitation id) r w body silent e = rw e (p.get_state-dispatch _ _)
  succeeded-run (create_certificate req callback) r w body silent e = rw e (
      silent true (some body.id) _
      ∙ selected-run body.signatory_id (on_certificates (select_certificate body)) w _
          (p.get_state-dispatch _ _))
  succeeded-run (get_certificate id) r w body silent e = rw e (
      selected-run body.signatory_id (on_certificates (select_certificate body)) w _
        (p.get_state-dispatch _ _))
  succeeded-run (get_certificate_signatory id) r w body silent e = rw e (p.get_state-dispatch _ _)
  succeeded-run (get_certificates_by_account_id id) r w body silent e =
      rw e (p.get_state-dispatch _ _)
  succeeded-run (get_signing_certificates id) r w body silent e = rw e (p.get_state-dispatch _ _)
  succeeded-run (download_certificate_body id full) r w body silent e = rw e refl
  succeeded-run (download_certificate_private_key id password callback) r w body silent e =
      rw e (silent true w)
  succeeded-run get_certificate_options r w body silent e = rw e (p.get_state-dispatch _ _)

  -- The store after the response to a call whose callback leaves the store as it is: the actions that
  -- the response dispatches, run by the reducers.
  pub resume-run :
      (c : Call p) (r : HttpResponse (Answer c)) (w : World p)
      → IsSilent c
      → state (resume c r w).0 ≡ run (state w) (dispatched c r)
  resume-run c r w silent =
      let result = λ (o : Option (Answer c)). run (state w) (outcome c o r.error r.metadata) in
      elim (Option-cases r.body) [
        | inl e ↦ failed-run c r w silent e ∙ ap result (sym e)
        | inr (body, e) ↦ succeeded-run c r w body silent e ∙ ap result (sym e)
      ]

  success_actions-AreIn : (c : Call p) (body : Answer c) → AreIn (area c) (success_actions c body)
  success_actions-AreIn (sign_up req callback) body = (refl, tt)
  success_actions-AreIn (login req callback) body = (refl, tt)
  success_actions-AreIn (get_user id) body = (refl, tt)
  success_actions-AreIn (create_invitation req callback) body = tt
  success_actions-AreIn (get_invitation id) body = (refl, tt)
  success_actions-AreIn (create_certificate req callback) body =
      (refl, signatory_actions-AreIn body.signatory_id)
  success_actions-AreIn (get_certificate id) body =
      (refl, signatory_actions-AreIn body.signatory_id)
  success_actions-AreIn (get_certificate_signatory id) body = (refl, tt)
  success_actions-AreIn (get_certificates_by_account_id id) body = (refl, tt)
  success_actions-AreIn (get_signing_certificates id) body = (refl, tt)
  success_actions-AreIn (download_certificate_body id full) body = tt
  success_actions-AreIn (download_certificate_private_key id password callback) body = tt
  success_actions-AreIn get_certificate_options body = (refl, tt)

  failed-AreIn :
      (c : Call p) (e : Option JsError) (m : ResponseMetadata)
      → AreIn (area c) (failure_actions p (shown_as c) e m)
  failed-AreIn (sign_up req callback) e m = (refl, tt)
  failed-AreIn (login req callback) e m = (refl, tt)
  failed-AreIn (get_user id) e m = (refl, tt)
  failed-AreIn (create_invitation req callback) e m = (refl, tt)
  failed-AreIn (get_invitation id) e m = (refl, tt)
  failed-AreIn (create_certificate req callback) e m = tt
  failed-AreIn (get_certificate id) e m = tt
  failed-AreIn (get_certificate_signatory id) e m = tt
  failed-AreIn (get_certificates_by_account_id id) e m = tt
  failed-AreIn (get_signing_certificates id) e m = tt
  failed-AreIn (download_certificate_body id full) e m = tt
  failed-AreIn (download_certificate_private_key id password callback) e m = tt
  failed-AreIn get_certificate_options e m = tt

  dispatched-AreIn : (c : Call p) (r : HttpResponse (Answer c)) → AreIn (area c) (dispatched c r)
  dispatched-AreIn c r = elim r.body as (λ o. AreIn (area c) (outcome c o r.error r.metadata)) [
    | none ↦ failed-AreIn c r.error r.metadata
    | some body ↦ success_actions-AreIn c body
  ]

  -- In every system reached from a tab with a new store, the responses to two calls that write different
  -- areas of the store, whatever they bring, leave the same store in either order, if the callbacks
  -- of the calls leave the store as it is. The areas are: the error, the user and the invitation;
  -- the selected certificate with its signatory; the list of certificates; the signatories to choose
  -- from; the options.
  pub resume-order :
      (w : World p) (s : System p) (c d : Call p) (r : HttpResponse (Answer c))
      (q : HttpResponse (Answer d))
      → state w ≡ initial_state
      → Reach (idle w) s
      → area c ≢ area d
      → IsSilent c
      → IsSilent d
      → state (resume d q (resume c r s.world).0).0 ≡ state (resume c r (resume d q s.world).0).0
  resume-order w s c d r q fresh reached ne c_silent d_silent =
      let (acts, e) = Reach-view w s fresh reached in
      let v = view_after empty_view acts in
      resume-run d q _ d_silent
      ∙ (ap (λ x. run x (dispatched d q)) (resume-run c r s.world c_silent)
          ∙ (ap (λ x. run (run x (dispatched c r)) (dispatched d q)) e
              ∙ (run-swap v (area c) (area d) (dispatched c r) (dispatched d q) ne
                    (dispatched-AreIn c r) (dispatched-AreIn d q)
                  ∙ (ap (λ x. run (run x (dispatched d q)) (dispatched c r)) (sym e)
                      ∙ (ap (λ x. run x (dispatched c r)) (sym (resume-run d q s.world d_silent))
                          ∙ sym (resume-run c r _ c_silent))))))
