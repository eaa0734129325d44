-- ===== src/Server.antt =====
-- internal/network/server.go: the commands of a client and the replies it reads.
pub mod Session
pub mod Commands
pub mod Lines
pub mod Life
pub mod Program
mod Tests
