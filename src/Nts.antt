-- ===== src/Nts.antt =====
-- Network Time Security: the extension fields (nts_extens.rs), the key-establishment records and
-- their client (nts.rs), and the cookies (nts_cookie.rs).
pub mod Padding
pub mod Extension
pub mod Authenticator
pub mod Record
pub mod Siv
pub mod Cipher
pub mod Cookie
pub mod Handshake
pub mod State
mod Examples
