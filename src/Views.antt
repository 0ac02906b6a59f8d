-- ===== src/Views.antt =====
-- The components of web-app/src/modules that keep state of their own or decide what is shown.
pub mod RsaOptions
pub mod SignatorySearch
pub mod NewCertificate
pub mod PrivateKeyModal
pub mod CertificatePage
pub mod ErrorNotification
