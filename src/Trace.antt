-- ===== src/Trace.antt =====
-- internal/pkg/tracer/sessiontrace: session tracing. `Util` has the helpers of util.go, `Async` the
-- tracer with its queue and worker, `Async/Steps` its interleavings, `FileSink` the sink to
-- files, and `DbSink` the sink to the database.
pub mod Util
pub mod Async
pub mod FileSink
pub mod DbSink
pub mod Tests
