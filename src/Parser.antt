-- ===== src/Parser.antt =====
-- pkg/parser: the dialects of the CEPA URL and the events they carry.
pub mod Utf16
pub mod Text
pub mod Event
pub mod Classify
pub mod OneFs
pub mod CheckEvent
pub mod Vcaps
