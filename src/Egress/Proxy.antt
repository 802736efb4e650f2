-- ===== src/Egress/Proxy.antt =====
-- apps/server/src/egress-proxy.ts: the proxy. A socket, a request or a response is a text that names it.
pub mod Addresses
pub mod Octets
pub mod Ranges
pub mod Headers
pub mod Connections
pub mod Requests
pub mod Drained
pub mod Public
pub mod Passed
