-- ===== src/Ui/KeyRace.antt =====
-- The modal of the private key when the certificate behind it changes.
use webca.Common.{
  ◌≡◌, refl, sym, ap, ◌∙◌, inl, inr, String, Bool, true, false, not, Option, some, is_some, List,
  [], ◌∷◌, ◌++◌, ◌==◌,
}
use webca.Common.Text.{truthy}
use webca.Common.Dict.{lookup}
use webca.Constants.{root_ca, admin_role}
use webca.Types.{Certificate, SelectedCertificate, HttpResponse}
use webca.State.{reducer}
use webca.Platform.{Platform}
use webca.World.{World, state, dispatch}
use webca.State.Actions.{on_certificates, select_certificate, remove_selected_signatory}
use webca.Hooks.{use_is_authenticated}
use webca.Containers.{download_private_key}
use webca.Operations.Calls.{Call, get_certificate, download_certificate_private_key}
use webca.System.Races.{get_certificate_unsigned}
use webca.System.{System, downloads_private_key, dialog_callback, perform}
use webca.Views.PrivateKeyModal
use webca.Views.PrivateKeyModal.{Modal, opens, open_modal}
use webca.Views.CertificatePage.{
  has_role, display, download_certificate_button, download_private_key_button,
}
use webca.Pages.Gesture.{Gesture, does, changes_modal}
use webca.Pages.Markup.Handlers.{IsOffered}
use webca.Pages.CertificatePage.{certificate_display, certificate_container, private_key_modal}
use webca.Pages.Draft
use webca.Pages.Draft.{Draft}
use webca.Pages.Router.{Router}
use webca.Pages.Routes.{Page, certificate, page_of, page_node, app}
use webca.Ui.{Ui, settle, act, after_gesture, page_shown, world_of, location_of, with_calls}
use webca.Ui.Steps.{Answers, Step, gesture, response, Reach, here, next}

-- The button that opens the modal, for a certificate that is not a root CA.
offers_modal :
    (admin : Bool) (selected : SelectedCertificate) (c : Certificate) (m : Modal)
    → selected.certificate ≡ some c
    → admin ≡ false
    → (c.type == root_ca) ≡ false
    → IsOffered
        (changes_modal opens)
        (certificate_display admin (not (is_some selected.certificate)) selected m)
unfolding IsOffered certificate_display display download_private_key_button
    download_certificate_button
offers_modal admin selected c m shown user other =
    rw (shown, user, other) (inr (inr (inr (inr (inr (inl (inl (inl (inl refl)))))))))

-- The form of the modal, while it is open.
offers_key :
    (admin loading : Bool) (selected : SelectedCertificate) (m : Modal) (password : String)
    → m.modal_open ≡ true
    → IsOffered
        (does (downloads_private_key password))
        (certificate_display admin loading selected m)
unfolding IsOffered certificate_display private_key_modal lookup
offers_key admin loading selected m password is_open = rw is_open (
    inr (
      inr (
        inr (
          inr (
            inr (
              inr (
                inl
                  (inr (inr (inr (inl (inl (inl (("password", password) ∷ [], inl refl))))))))))))))

module _ {p : Platform} where
  -- The tab after an answer that brings a certificate without a signatory.
  abbrev selecting : Certificate → World p → World p
  selecting ca w =
      dispatch (on_certificates remove_selected_signatory)
        (dispatch (on_certificates (select_certificate ca)) w)

  state-selecting :
      (ca : Certificate) (w : World p)
      → state (selecting ca w)
        ≡ reducer
            (reducer (state w) (on_certificates (select_certificate ca)))
            (on_certificates remove_selected_signatory)
  state-selecting ca w =
      p.get_state-dispatch _ _
      ∙ ap (λ s. reducer s (on_certificates remove_selected_signatory)) (p.get_state-dispatch _ _)

  selecting-certificate :
      (ca : Certificate) (w : World p)
      → (state (selecting ca w)).certificates.selected.certificate ≡ some ca
  unfolding reducer
  selecting-certificate ca w = ap (λ s. s.certificates.selected.certificate) (state-selecting ca w)

  selecting-user : (ca : Certificate) (w : World p) → (state (selecting ca w)).user ≡ (state w).user
  unfolding reducer
  selecting-user ca w = ap (λ s. s.user) (state-selecting ca w)

  page_of-loaded :
      (router : Router) (v w : World p) (location : String)
      → (state v).user ≡ (state w).user
      → page_of router v location ≡ page_of router w location
  unfolding page_of use_is_authenticated
  page_of-loaded router v w location same = rw same refl

  -- What the shown page offers, the app offers.
  shown_by_app :
      (router : Router) (d : Draft) (m : Modal) (w : World p) (location : String) (g : Gesture)
      (page : Page)
      → page_of router w location ≡ some page
      → (state w).user.loaded ≡ true
      → IsOffered g (page_node d m w page)
      → IsOffered g (app router d m w location)
  unfolding IsOffered app use_is_authenticated
  shown_by_app router d m w location g page shown loaded offered =
      rw (shown, loaded) (inr (inr (inl (inr (inr (inl offered))))))

  -- The app with the page of a certificate and the modal.
  abbrev on_page : System p → Modal → Ui p
  on_page s m = record { system = s; draft = Draft.initial; modal = m }

  settled :
      (router : Router) (u : Ui p) (id : Option String)
      → page_shown router u ≡ some (certificate id)
      → settle router u ≡ on_page u.system u.modal
  unfolding settle
  settled router u id shown = rw shown refl

  opening :
      (router : Router) (Gives : Answers p) (u : Ui p) (id : Option String) (c : Certificate)
      → page_shown router u ≡ some (certificate id)
      → (state (world_of u)).user.loaded ≡ true
      → has_role (state (world_of u)).user.user admin_role ≡ false
      → (state (world_of u)).certificates.selected.certificate ≡ some c
      → (c.type == root_ca) ≡ false
      → Step router Gives u (on_page u.system (open_modal u.modal))
  unfolding after_gesture act page_node certificate_container PrivateKeyModal.handle settle
  opening router Gives u id c shown loaded user there other =
      gesture (changes_modal opens)
        (shown_by_app router u.draft u.modal (world_of u) (location_of u) (changes_modal opens)
          (certificate id) shown loaded
          (offers_modal _ (state (world_of u)).certificates.selected c u.modal there user other))
        (rw shown refl)

  answering :
      (router : Router) (Gives : Answers p) (s : System p) (m : Modal) (id : Option String)
      (before after : List (Call p)) (late : String) (ca : Certificate)
      (r : HttpResponse Certificate)
      → page_shown router (on_page s m) ≡ some (certificate id)
      → s.pending ≡ before ++ get_certificate late ∷ after
      → r.body ≡ some ca
      → truthy ca.signatory_id ≡ false
      → Gives (get_certificate late) r
      → Step router Gives
          (on_page s m)
          (on_page (with_calls (selecting ca s.world, []) (before ++ after)) m)
  answering router Gives s m id before after late ca r shown listed body unsigned given =
      let page = page_of-loaded router (selecting ca s.world) s.world (location_of (on_page s m)) in
      response before after (get_certificate late) r m listed given refl (
        rw (get_certificate_unsigned late ca r s.world unsigned body)
          (sym (settled router _ id (page (selecting-user ca s.world) ∙ shown))))

  asking :
      (router : Router) (Gives : Answers p) (s : System p) (m : Modal) (id : Option String)
      (ca : Certificate) (password : String)
      → page_shown router (on_page s m) ≡ some (certificate id)
      → (state s.world).user.loaded ≡ true
      → (state s.world).certificates.selected.certificate ≡ some ca
      → m.modal_open ≡ true
      → Step router Gives (on_page s m) (
          on_page
            (with_calls
              (s.world, download_certificate_private_key ca.id password dialog_callback ∷ [])
              s.pending)
            m)
  unfolding after_gesture act perform download_private_key page_node certificate_container settle
  asking router Gives s m id ca password shown loaded there is_open =
      gesture (does (downloads_private_key password))
        (shown_by_app router Draft.initial m s.world (location_of (on_page s m))
          (does (downloads_private_key password)) (certificate id) shown loaded
          (offers_key _ _ (state s.world).certificates.selected m password is_open))
        (rw (there, shown) refl)

  -- On the page of a certificate that is not a root CA, while the answer to a request for a root CA is
  -- still awaited, a user who is not an administrator can open the modal, and submit it after that
  -- answer: the app then asks the server for the private key of the root CA.
  pub key_race :
      (router : Router) (Gives : Answers p) (u : Ui p) (id : Option String) (c ca : Certificate)
      (before after : List (Call p)) (late password : String) (r : HttpResponse Certificate)
      → page_shown router u ≡ some (certificate id)
      → (state (world_of u)).user.loaded ≡ true
      → has_role (state (world_of u)).user.user admin_role ≡ false
      → (state (world_of u)).certificates.selected.certificate ≡ some c
      → (c.type == root_ca) ≡ false
      → u.system.pending ≡ before ++ get_certificate late ∷ after
      → r.body ≡ some ca
      → ca.type ≡ root_ca
      → truthy ca.signatory_id ≡ false
      → Gives (get_certificate late) r
      → (v : Ui p) × Reach router Gives u v
        × (has_role (state (world_of v)).user.user admin_role ≡ false)
        × (v.system.pending
            ≡ download_certificate_private_key ca.id password dialog_callback ∷ (before ++ after))
  key_race router Gives u id c ca before after late password r page loaded user there other listed
        body root unsigned given =
      let m = open_modal u.modal in
      let t = with_calls (selecting ca (world_of u), []) (before ++ after) in
      let same = selecting-user ca (world_of u) in
      (
        _,
        next
            (next (next here (opening router Gives u id c page loaded user there other)) (
              answering router Gives u.system m id before after late ca r page listed body unsigned
                given))
            (asking router Gives t m id ca password
              (page_of-loaded router (selecting ca (world_of u)) (world_of u) (location_of u) same
                ∙ page)
              (ap (λ s. s.loaded) same ∙ loaded) (selecting-certificate ca (world_of u)) refl),
        ap (λ s. has_role s.user admin_role) same ∙ user,
        refl,
      )
