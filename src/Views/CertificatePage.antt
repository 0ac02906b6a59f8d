-- ===== src/Views/CertificatePage.antt =====
-- The buttons of the page of a certificate: certificate/CertificateContainer.tsx,
-- CertificateDisplay.tsx, DownloadCertificateButton.tsx and DownloadPrivateKeyButton.tsx.
pub mod Laws
use webca.Common.{
  String, Bool, true, false, not, ◌&&◌, Option, none, some, is_some, if◌then◌else◌, ◌==◌,
}
use webca.Constants.{root_ca, admin_role}
use webca.Types.{Certificate, User}
use webca.Platform.{Platform}
use webca.World.{World, state}

-- A button that is shown, by the key of its text.
pub record Button : Type 0 where
  pub text : String
  pub disabled : Bool

abbrev pub has_role : Option User → String → Bool
has_role none role = false
has_role (some user) role = user.role == role

abbrev pub has_type : Option Certificate → String → Bool
has_type none type = false
has_type (some certificate) type = certificate.type == type

unfoldable pub download_certificate_button : Bool → Bool → Button
download_certificate_button is_loading fullchain = record {
  text =
      if fullchain
      then "certificateDisplay.download-certificateChain"
      else "certificateDisplay.download-certificate";
  disabled = is_loading;
}

unfoldable pub download_private_key_button : Bool → Bool → Bool → Option Button
download_private_key_button is_admin is_root_ca is_loading =
    if is_root_ca && not is_admin
    then none
    else some (record { text = "certificateDisplay.download-privateKey"; disabled = is_loading })

pub record Buttons : Type 0 where
  pub certificate : Button
  pub chain : Option Button
  pub private_key : Option Button

-- The buttons of `CertificateDisplay`.
unfoldable pub display : Bool → Bool → Option Certificate → Buttons
unfolding download_certificate_button download_private_key_button
display is_admin is_loading certificate =
    let is_root_ca = has_type certificate root_ca in
    record {
      certificate = download_certificate_button is_loading false;
      chain = if not is_root_ca then some (download_certificate_button is_loading true) else none;
      private_key = download_private_key_button is_admin is_root_ca is_loading;
    }

-- `CertificateContainer`
unfoldable pub render : {p : Platform} → World p → Buttons
unfolding display
render w =
    let certificate = (state w).certificates.selected.certificate in
    display (has_role (state w).user.user admin_role) (not (is_some certificate)) certificate
