-- ===== src/Proxy.antt =====
-- The proxy, which names a gateway to a device that asks for one: the table of gateways of
-- proxy/zoo.go, and the server of proxy/main.go and proxy/server.go.
pub mod Comets
pub mod Server
