-- ===== src/Model.antt =====
-- internal/app/domain/model: the records of the database and the operations on them. `Gorm` is what
-- the code relies on of its database library, `Tables` the records and tables, `Address` the check of
-- an address, `Domain` (domain.go), `Account` and `Mail` (account.go, email.go) the operations,
-- `Configure` (configure.go) the configuration tree, and `Fingerprint` (hash.go) the fingerprints of
-- texts. `Listing` is the end of a paged query. `Memory` is a table for the tests.
pub mod Fingerprint
pub mod Gorm
pub mod Tables
pub mod Listing
pub mod Address
pub mod Domain
pub mod Account
pub mod Mail
pub mod Configure
pub mod Memory
pub mod Tests
