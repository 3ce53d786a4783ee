-- ===== src/Modem.antt =====
-- The modem emulation of src/modem.c and include/modem.h: the Hayes commands that the client types,
-- the escape sequence, and the calls that the line's signals make.
pub mod State
pub mod Response
pub mod Call
pub mod Command
pub mod Escape
pub mod Input
pub mod Carrier
pub mod Hardware
