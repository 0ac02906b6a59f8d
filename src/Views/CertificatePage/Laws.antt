-- ===== src/Views/CertificatePage/Laws.antt =====
-- Who is offered which download on the page of a certificate.
use webca.Common.{
  ◌≡◌, refl, Bool, true, false, not, ◌||◌, Option, none, some, is_some, if◌then◌else◌,
}
use webca.Constants.{root_ca, admin_role}
use webca.Platform.{Platform}
use webca.World.{World, state}
use webca.Views.CertificatePage.{
  Button, has_role, has_type, download_certificate_button, download_private_key_button, display,
  render,
}

abbrev offered : Option Button → Bool
offered b = is_some b

private_key_offered :
    (admin root loading : Bool)
    → is_some (download_private_key_button admin root loading) ≡ (not root || admin)
unfolding download_private_key_button
private_key_offered true true loading = refl
private_key_offered true false loading = refl
private_key_offered false true loading = refl
private_key_offered false false loading = refl

chain_offered : (root : Bool) (b : Button) → is_some (if not root then some b else none) ≡ not root
chain_offered true b = refl
chain_offered false b = refl

-- On the page of the selected certificate, in any state: the private key is offered exactly if
-- the certificate is not a root CA or the user who is logged in is an administrator, the
-- chain is offered exactly if it is not a root CA, and the button of the certificate is
-- disabled exactly while no certificate is selected.
pub render-offered :
    {p : Platform} (w : World p)
    → let selected = (state w).certificates.selected.certificate in
      let is_root = has_type selected root_ca in
      (is_some (render w).private_key ≡ (not is_root || has_role (state w).user.user admin_role))
      × (is_some (render w).chain ≡ not is_root)
      × ((render w).certificate.disabled ≡ not (is_some selected))
unfolding render display download_certificate_button
render-offered w = (private_key_offered _ _ _, chain_offered _ _, refl)
