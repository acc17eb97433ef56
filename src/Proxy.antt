-- ===== src/Proxy.antt =====
-- app/proxy.py: the reverse proxy.
pub mod Authorize
pub mod Secret
pub mod Subpath
pub mod Upstream
pub mod Body
pub mod Handler
pub mod Relay
pub mod Tests
