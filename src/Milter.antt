-- ===== src/Milter.antt =====
-- internal/app/service/milter: the packets that a mail filter exchanges with the MTA. `Codes` has
-- the command and action codes, `Options` the option bits, `CStrings` the NUL-terminated texts, `Response`
-- the answers of a filter, and `Modifier` the packets that change a message.
pub mod Codes
pub mod Options
pub mod CStrings
pub mod Response
pub mod Modifier
pub mod Tests
