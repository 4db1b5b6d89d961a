-- ===== src/Session.antt =====
-- src/client_session.cpp: a session with a device, the handlers of its events, and what they share.
pub mod Record
pub mod Machine
pub mod Registration
pub mod Reading
pub mod Polling
pub mod Sound
pub mod Takeover
pub mod Deadline
