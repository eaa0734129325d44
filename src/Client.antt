-- ===== src/Client.antt =====
-- internal/network/client.go: a connection to the server, the replies and the requests.
pub mod Connection
pub mod Replies
pub mod Requests
pub mod Terminal
pub mod Program
mod Tests
