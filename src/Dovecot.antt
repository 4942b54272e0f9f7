-- ===== src/Dovecot.antt =====
-- internal/app/service/dovecot: the server that answers Dovecot's authentication requests. `Server`
-- has its start and stop, `Base64` the decoder of the standard library, `Request` the reading of an
-- AUTH line, and `Handle` one connection.
pub mod Server
pub mod Base64
pub mod Request
pub mod Handle
pub mod Tests
