-- ===== src/NativeTransport.antt =====
-- native_transport.py: frames on the pipes of the language server, and the correlation of requests.
pub mod Frames
pub mod State
pub mod Admit
pub mod Requests
pub mod Settled
pub mod Operations
pub mod Dispatch
pub mod Admissions
pub mod Answers
pub mod Callbacks
pub mod Machine
