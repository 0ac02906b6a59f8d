-- ===== src/Pages.antt =====
-- What the app shows: the components of web-app/src/modules and the routes, as trees of elements, with
-- the gestures that they offer.
pub mod Gesture
pub mod Markup
pub mod Fields
pub mod Display
pub mod Access
pub mod Account
pub mod Navigation
pub mod CertificateList
pub mod CertificateDetails
pub mod CertificatePage
pub mod Draft
pub mod NewCertificate
pub mod Router
pub mod Routes
pub mod Translated
pub mod Offered
