-- ===== src/Binary.antt =====
-- routeros_binary.py: the RouterOS Binary API transport.
pub mod Error
pub mod Length
pub mod Words
pub mod Reader
pub mod Reply
pub mod Query
pub mod Connection
mod Tests
