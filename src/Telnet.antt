-- ===== src/Telnet.antt =====
-- The telnet client of src/telnet.c (with include/telnet.h).
pub mod Byte
pub mod Telopt
pub mod State
pub mod Negotiate
pub mod Subnegotiate
pub mod Send
pub mod Connect
pub mod Output
pub mod Queue
pub mod Health
pub mod Input
pub mod Reads
