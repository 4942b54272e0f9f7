-- ===== src/Lib.antt =====
-- easymail: a verification library for the mail server.
--
-- The program is the server side of a mail system. Its parts, and the files that model them:
--   * internal/app/service/dovecot (server.go, session.go): a server for the Dovecot authentication
--     protocol. A connection is greeted, and each AUTH line is parsed, decoded and answered by
--     asking the identity service. `Dovecot/Server` is `New`, `Start`, `Stop` and the accept loop,
--     `Dovecot/Request` the parsing of a line, `Dovecot/Base64` the decoder that it calls,
--     `Dovecot/Handle` the state of a connection and the whole of `Handle`; `Safety`, `Greeting`,
--     `Whole` and `Refusal` below it are its theorems, and `Login` joins the server to the service and the tables.
--   * internal/app/service/auth (service.go): `Authenticate`, over a repository. `Auth`; the repository
--     over the database, internal/infrastructure/persistence/mysql/account_auth.go, is `Auth/Store`.
--   * internal/app/domain/model: domains, accounts, mails and the configuration tree (domain.go,
--     account.go, email.go, configure.go) and the fingerprints of texts (hash.go) in `Model`, filter
--     rules and metrics (filter.go) in `Filter`, with the listings of both in `Model/Account/Index`,
--     `Model/Domain/Index`, `Model/Configure/Listing` and `Filter/Listing`, and the keys of metrics in
--     `Filter/Key`. `Model/Gorm` is the interface to the database library: its calls on one table and,
--     as records of laws, their documented behaviour; `Model/Listing` is the end of a paged query, and
--     `Model/Listing/Memory` a query that satisfies its laws.
--   * internal/app/service/milter (message.go, milter.go, cstrings.go, response.go, modifier.go): the
--     packets of the milter protocol. `Milter`.
--   * internal/pkg/tracer/sessiontrace (async.go, types.go, util.go): the tracer that the servers
--     report to. `Trace/Async` is its operations, `Trace/Async/Steps` the steps of its goroutines, a
--     transition being one critical section, one send or receive, or one write to one sink,
--     `Trace/Async/Sound` what every step keeps, `Trace/Async/Liveness` the end of the worker, and `Trace/Util` what masks a user.
--     `Trace/FileSink` is the sink to files, filejsonl/sink.go, and `Trace/DbSink` the one to the
--     database, dbsink.
--   * internal/app/service/storage (local.go): mails as files with a row each. `Storage` is `Save`,
--     over the lookups and the insertion of `Model`, and `Query`, `Storage/Reading` is `Read` and
--     `GetAttach`, and `Text/Path` the joining of paths; `Laws`, `Leaves` and `Place` below `Storage`
--     are its theorems.
--   * internal/pkg/utils/preprocessing (tokenizerBasic.go, mailbox.go, tokenizerChain.go,
--     tokenizerDefault.go): the simple tokenizer and the domain of an address in `Tokenizer`, the
--     words and chains of runes in `Tokenizer/Chain`, the runs of the segmenter's tokens in
--     `Tokenizer/Combine`. `Tokenizer/New` is the constructors and the defaults (init.go). `Html` is
--     what html2text.go takes from a page.
--   * internal/pkg/database (application.go, init.go, mysql, redis) and the choice of the file of the
--     configuration in cmd/api/main.go: `Database`.
--   * `Base` has the shared names, tests, lists and maps, `Text` what the code uses of the Go
--     packages strings and bytes, and `Clock` what it uses of the package time: a time is the number
--     of nanoseconds since the zero time, and a place is two functions on it, to the time that a clock
--     on the wall shows and back.
--
-- A string is the list of its bytes, a map the association list of its entries, an error a
-- constructor, a table the list of its rows. An operation on the database takes the tables and
-- returns the tables behind it. Code that is not in the repository is a parameter: gorm, bcrypt, the
-- identity service where a connection asks it, the writes of a socket, the opening and the writes of a
-- file, the marshalling of an event, the segmenter of Chinese text, the stop words, the order of a
-- map's entries, the clock, drawn identifiers and their parser, drawn numbers, the comparison of two
-- texts by the database, the keys that it draws, the directories that an attempt makes, the builder
-- and the readers of a mail and of an address, the readers of a file and of yaml, and the client of
-- Redis.
--
-- Every loop of the code that is modelled runs over a list, and the one definition on fuel prints a
-- number in at most twenty digits, which is enough for 64 bits. Numbers are natural numbers
-- or `ℤ`; where the code's arithmetic can wrap around, as in the time-out of a metric and in the index
-- of a header, the 64 or 32 bits are written out. A time or a date that an addition would take below
-- the zero time is the zero time; Go goes on below it.
--
-- The names of accounts and domains are compared as the database compares them, which its collation
-- decides; the names of configuration nodes and metrics, and hashes, are compared byte by byte. A
-- transaction that cannot be begun fails at its first call, except where the code does more before it,
-- as `EditAccount` does. A panic ends the process, and is no step of it.
--
-- Not modelled: the removals on the tree of a page, which are calls of goquery; the making and the
-- comparison of a hash, which are calls of bcrypt; the records of requests that no function of the
-- repository reads; the vendored DKIM, SPF and ssdeep libraries; the interfaces and stubs without a
-- body; the packages that cmd/api calls and the repository does not have; assets.
pub mod Base
pub mod Text
pub mod Clock
pub mod Database
pub mod Auth
pub mod Trace
pub mod Milter
pub mod Filter
pub mod Dovecot
pub mod Model
pub mod Html
pub mod Storage
pub mod Tokenizer
