-- ===== src/Utils.antt =====
-- web-app/src/utils
pub mod ApiUtil
pub mod RsaUtil
pub mod TimeUtil
