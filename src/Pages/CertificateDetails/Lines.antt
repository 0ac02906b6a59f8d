-- ===== src/Pages/CertificateDetails/Lines.antt =====
-- The lines of CertificateBody.tsx.
use webca.Common.{◌≡◌, true, String, All}
use webca.Common.Text.{join}
use webca.Common.Text.Split.{free, join-split, All-split}
use webca.Pages.CertificateDetails.{lines_of}

-- The lines shown of a certificate's body give the body again when they are joined by line breaks, and
-- no line has a line break in it, whatever the body is.
pub join-lines_of :
    (body : String)
    → (join "\n" (lines_of body) ≡ body) × All (λ line. free "\n" line ≡ true) (lines_of body)
unfolding lines_of
join-lines_of body = (join-split "\n" body, All-split "\n" body)
