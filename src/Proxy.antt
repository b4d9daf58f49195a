-- ===== src/Proxy.antt =====
-- The crate `proxy`.
pub mod Vless
pub mod Trojan
pub mod Mux
pub mod Udp
pub mod Socks
pub mod Crypto
pub mod Framed
pub mod Shadowsocks
pub mod Outbound
pub mod Relay
pub mod Http
pub mod Vmess
mod CipherTests
mod Tests
