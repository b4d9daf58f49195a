-- ===== src/Proxy/Vmess.antt =====
-- proxy/src/vmess: the users of the VMess inbound, its replay filter and whom it lets in, the request
-- header and the chunks of a flow.
pub mod Users
pub mod Replay
pub mod Inbound
pub mod Body
pub mod Kdf
pub mod Header
pub mod Flow
