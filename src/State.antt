-- ===== src/State.antt =====
-- internal/state/store.go: the files of the data directory and the credentials of the console.
pub mod Files
pub mod Base64
pub mod Pbkdf2
pub mod Credentials
pub mod Examples
pub mod Auth
