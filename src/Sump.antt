-- ===== src/Sump.antt =====
-- embedded_debug_toolkit/src/protocol/sump_server.c: the SUMP commands of a client and what they do to the
-- logic analyser.
pub mod Session
pub mod Apply
pub mod Client
pub mod Commands
pub mod Server
pub mod Socket
mod Tests
