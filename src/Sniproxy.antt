-- ===== src/Sniproxy.antt =====
-- talos-edge-router/internal/sniproxy: the router of TLS connections by the name that they ask for.
pub mod Peek
pub mod Router
pub mod IpSync
pub mod Handle
pub mod Listeners
