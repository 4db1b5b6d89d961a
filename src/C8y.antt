-- ===== src/C8y.antt =====
-- src/c8y.cpp: class C8yModel, the messages between the gateway and the platform.
pub mod Query
pub mod Load
pub mod Send
