-- ===== src/Echo.antt =====
-- The programs of performance/: an echo server and a client that measures it, plain and over SSL.
pub mod Session
pub mod Stream
pub mod Client
pub mod Server
pub mod Recorded
pub mod Link
mod Carried
pub mod Traffic
pub mod Doubled
pub mod Report
pub mod Secure
pub mod Answers
pub mod Balance
pub mod Reading
pub mod Begun
pub mod Benchmark
pub mod Circuit
pub mod Circulation
pub mod Returns
mod Examples
mod RoundTrips
