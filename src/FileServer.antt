-- ===== src/FileServer.antt =====
-- MidtermProject: the concurrent file server and its client.
pub mod WaitQueue
pub mod ProcessArray
pub mod SafeFile
pub mod Reading
pub mod Requests
pub mod Commands
pub mod Registrar
pub mod SafeDir
pub mod Client
pub mod Help
pub mod Exchange
pub mod Service
pub mod Terminal
pub mod Conversation
