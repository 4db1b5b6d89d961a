-- ===== src/Parse.antt =====
-- src/modbus_p.cpp: the reading of a response.
pub mod Effects
pub mod Sid
pub mod Coils
pub mod Registers
pub mod Msg
