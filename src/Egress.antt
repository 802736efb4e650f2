-- ===== src/Egress.antt =====
-- The enforcement of outbound connections (egress-authorizer.ts and egress-proxy.ts).
pub mod Authorizer
pub mod Proxy
