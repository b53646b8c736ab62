-- ===== src/Ssl.antt =====
-- The SSL classes of include/core/tcp and source/core/tcp, each built on its Tcp parent: the handshake, and
-- what it gates. OpenSSL and asio's stream are not modelled; their answers are arguments.
pub mod Session
pub mod Handshake
pub mod Awake
pub mod Client
mod Keeps
pub mod Flags
pub mod Shaken
pub mod Server
pub mod Failing
mod Examples
