-- ===== src/Vpngate.antt =====
-- internal/vpngate: the node list and the profiles that it carries.
pub mod Profile
pub mod Client
pub mod Remote
pub mod Rows
pub mod Socks5
pub mod Examples
