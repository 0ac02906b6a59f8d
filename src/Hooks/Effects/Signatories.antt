-- ===== src/Hooks/Effects/Signatories.antt =====
-- The effect of `useFetchSignatories`: the signatories are fetched once, and again when a new
-- certificate has emptied them.
use webca.Common.{
  ◌≡◌, ◌≢◌, refl, ap, ◌∙◌, String, Bool, true, false, none, some, List, [], ◌∷◌, Option-cases, inl,
  inr, eq_refl, is_some, if◌then◌else◌,
}
use webca.Common.Text.{truthy}
use webca.Types.{Certificate, Page, HttpResponse}
use webca.State.{reducer}
use webca.State.Actions.{on_certificates, remove_signing_certificates, add_signing_certificates}
use webca.Platform.{Platform}
use webca.World.{World, state, dispatch}
use webca.Utils.ApiUtil.{log_error}
use webca.Operations.{resume}
use webca.Operations.Calls.{Call, get_signing_certificates}
use webca.Operations.Certificates
use webca.System.Session.{truthy_of_ne}
use webca.Hooks.{use_account_id, account_id_of, account_of, fetch_signatories}
use webca.Hooks.Effects.{Dependency, render_signatories, flag, value}

abbrev seen : String → Bool → List Dependency
seen id loaded = value (some id) ∷ flag loaded ∷ []

module _ {p : Platform} where
  abbrev is_loaded : World p → Bool
  is_loaded w = (state w).certificates.signatories.loaded

  -- The account of the tab and whether its signatories are loaded, which the effect reads.
  record IsAt (id : String) (loaded : Bool) (w : World p) : Type 0 where
    account : use_account_id w ≡ some id
    signatories : is_loaded w ≡ loaded

  abbrev calls_for : String → List (Call p)
  calls_for id = get_signing_certificates id ∷ []

  at_first :
      (id : String) (w : World p)
      → truthy (some id) ≡ true
      → IsAt id false w
      → render_signatories none w
        ≡ record { dependencies = some (seen id false); world = w; calls = calls_for id }
  unfolding render_signatories fetch_signatories
  at_first id w filled h = rw (h.account, h.signatories, filled) refl

  unchanged_before :
      (id : String) (loaded : Bool) (w : World p)
      → IsAt id loaded w
      → render_signatories (some (seen id loaded)) w
        ≡ record { dependencies = some (seen id loaded); world = w; calls = [] }
  unfolding render_signatories
  unchanged_before id true w h = rw (h.account, h.signatories, eq_refl id) refl
  unchanged_before id false w h = rw (h.account, h.signatories, eq_refl id) refl

  now_loaded :
      (id : String) (w : World p)
      → IsAt id true w
      → render_signatories (some (seen id false)) w
        ≡ record { dependencies = some (seen id true); world = w; calls = [] }
  unfolding render_signatories fetch_signatories
  now_loaded id w h = rw (h.account, h.signatories, eq_refl id) refl

  now_emptied :
      (id : String) (w : World p)
      → truthy (some id) ≡ true
      → IsAt id false w
      → render_signatories (some (seen id true)) w
        ≡ record { dependencies = some (seen id false); world = w; calls = calls_for id }
  unfolding render_signatories fetch_signatories
  now_emptied id w filled h = rw (h.account, h.signatories, filled, eq_refl id) refl

  answered :
      (id : String) (loaded : Bool) (r : HttpResponse (Page Certificate)) (w : World p)
      → IsAt id loaded w
      → IsAt id
          (if is_some r.body then true else loaded)
          (resume (get_signing_certificates id) r w).0
  unfolding resume Certificates.get_signing_certificates reducer log_error
      Certificates.handle_get_certificates_error
  answered id loaded r w h = elim (Option-cases r.body) [
    | inl failed ↦ rw failed (record { account = h.account; signatories = h.signatories })
    | inr (body, there) ↦ rw there (
        let e =
          p.get_state-dispatch (on_certificates (add_signing_certificates body.results)) w.store in
        record {
          account = ap (λ s. account_id_of (account_of s.user.user)) e ∙ h.account;
          signatories = ap (λ s. s.certificates.signatories.loaded) e;
        })
  ]

  emptied :
      (id : String) (loaded : Bool) (w : World p)
      → IsAt id loaded w
      → IsAt id false (dispatch (on_certificates remove_signing_certificates) w)
  unfolding reducer
  emptied id loaded w h =
      let e = p.get_state-dispatch (on_certificates remove_signing_certificates) w.store in
      record {
        account = ap (λ s. account_id_of (account_of s.user.user)) e ∙ h.account;
        signatories = ap (λ s. s.certificates.signatories.loaded) e;
      }

  -- What the second and the third render make of the answer.
  after_answer :
      (id : String) (b : Bool) (v : World p)
      → truthy (some id) ≡ true
      → IsAt id (if b then true else false) v
      → let second = render_signatories (some (seen id false)) v in
        let third =
          render_signatories second.dependencies
            (dispatch (on_certificates remove_signing_certificates) second.world) in
        (second.calls ≡ []) × (second.world ≡ v) × (third.calls ≡ (if b then calls_for id else []))
  after_answer id true v given h =
      rw (now_loaded id v h)
        (refl, refl, ap (λ s. s.calls) (now_emptied id _ given (emptied id true v h)))
  after_answer id false v given h =
      rw (unchanged_before id false v h)
        (refl, refl, ap (λ s. s.calls) (unchanged_before id false _ (emptied id false v h)))

  -- While the account is known by an id that is not empty and the signatories are not loaded, the first
  -- render of `useFetchSignatories` asks for the signatories of the account. After the
  -- answer, the next render makes no call and changes nothing in the tab, whatever the answer was.
  -- When the signatories have been emptied then, the render after that asks for them again if the
  -- answer had brought some, and asks for nothing if it had failed.
  pub render_signatories-again :
      (id : String) (r : HttpResponse (Page Certificate)) (w : World p)
      → use_account_id w ≡ some id
      → id ≢ ""
      → (state w).certificates.signatories.loaded ≡ false
      → let first = render_signatories none w in
        let after = (resume (get_signing_certificates id) r first.world).0 in
        let second = render_signatories first.dependencies after in
        let cleared = dispatch (on_certificates remove_signing_certificates) second.world in
        let third = render_signatories second.dependencies cleared in
        (first.calls ≡ get_signing_certificates id ∷ [])
        × (second.calls ≡ [])
        × (second.world ≡ after)
        × (third.calls ≡ (if is_some r.body then get_signing_certificates id ∷ [] else []))
  render_signatories-again id r w account filled missing =
      let h : IsAt id false w = record { account = account; signatories = missing } in
      let given = truthy_of_ne id filled in
      let (quiet, unchanged, asked) =
        after_answer id (is_some r.body) (resume (get_signing_certificates id) r w).0 given
          (answered id false r w h) in
      rw (at_first id w given h) (refl, quiet, unchanged, asked)
