-- ===== src/Tests/RaceTests.antt =====
-- The theorems about certificates whose responses race or come late, at concrete inputs.
use webca.Common.{◌≡◌, ◌≢◌, refl, String, some, [], ◌∷◌, arith, eq_iff}
use webca.Common.Text.{truthy}
use webca.Common.Decimal.{pos}
use webca.Types.{CertificateRequest, User, AuthenticationResponse}
use webca.State.Actions.{on_certificates, add_signing_certificates}
use webca.Platform.{plain}
use webca.World.{World, dispatch}
use webca.Operations.{resume}
use webca.Operations.Calls.{get_certificate_signatory, get_certificate, create_certificate}
use webca.Containers.{on_create_success}
use webca.System.{System, Reach}
use webca.System.Invariants.{idle}
use webca.System.Races.{selected, both, selected-signed, selected_race}
use webca.System.Creation.{certificate_created, Shows}
use webca.Tests.Samples.{alice, root, other_root, leaf, answer, refused, blank, signed_in_tab}

root_id_ne : ◌≢◌ {A = String} "root-id" ""
root_id_ne = ground (arith, eq_iff "root-id" "")

other_id_ne : ◌≢◌ {A = String} "other-id" ""
other_id_ne = ground (arith, eq_iff "other-id" "")

leaf_id_ne : ◌≢◌ {A = String} "leaf-id" ""
leaf_id_ne = ground (arith, eq_iff "leaf-id" "")

selected-signed_example :
    let w = blank in
    ((resume (get_certificate "leaf-id") (answer leaf) w).1
      ≡ get_certificate_signatory "root-id" ∷ [])
    × (selected (resume (get_certificate "leaf-id") (answer leaf) w).0
        ≡ record { certificate = some leaf; signatory = (selected w).signatory })
    × (selected (both "leaf-id" (answer leaf) refused "root-id" w)
        ≡ record { certificate = some leaf; signatory = (selected w).signatory })
    × (selected (both "leaf-id" (answer leaf) (answer root) "root-id" w)
        ≡ record { certificate = some leaf; signatory = some root })
selected-signed_example =
    selected-signed "leaf-id" "root-id" leaf root (answer leaf) (answer root) refused blank
      root_id_ne refl refl refl refl

selected_race_example :
    (t : System plain) × Reach (idle blank) t
    × (t.pending ≡ [])
    × (selected t.world ≡ record { certificate = some other_root; signatory = some root })
selected_race_example =
    selected_race "leaf-id" "other-id" "root-id" leaf other_root root (answer leaf)
      (answer other_root) (answer root) blank leaf_id_ne other_id_ne root_id_ne refl refl refl refl
      refl

-- A user of another account, who logs in on a tab where alice had the signatories loaded.
abbrev bob : User
bob = record alice {
  id = "bob-id";
  email = "bob@webca.io";
  account = record alice.account { id = "acc-2" };
}

abbrev bob_auth : AuthenticationResponse
bob_auth = record { token = "another.token"; user = bob }

abbrev searching_tab : World plain
searching_tab = dispatch (on_certificates (add_signing_certificates (root ∷ []))) signed_in_tab

-- The form asked for the leaf certificate.
abbrev leaf_request : CertificateRequest
leaf_request = record {
  name = leaf.name;
  subject = leaf.subject;
  type = leaf.type;
  algorithm = "RSA";
  signatory = some (record { id = "root-id"; password = "root-password" });
  password = "a long password";
  options = ("keySize", pos 2048) ∷ [];
  expires_in_days = pos 365;
}

certificate_created_example :
    Shows
      (truthy leaf.signatory_id)
      leaf
      signed_in_tab
      (resume (create_certificate leaf_request on_create_success) (answer leaf) signed_in_tab)
certificate_created_example = certificate_created leaf_request leaf (answer leaf) signed_in_tab refl
