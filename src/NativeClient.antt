-- ===== src/NativeClient.antt =====
-- native_client.py: the turns of the language server as the client observes them, and their terminals.
pub mod Turn
pub mod Report
pub mod Callback
pub mod Terminal
pub mod Machine
pub mod Quiet
pub mod Calls
pub mod Evidence
