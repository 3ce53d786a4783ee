-- ===== src/Telnet/Byte.antt =====
-- The bytes of the telnet protocol (TELNET_ in include/telnet.h).
use modembridge.Prelude.{ℕ}

abbrev pub iac : ℕ
iac = 255

abbrev pub dont : ℕ
dont = 254

-- TELNET_DO
abbrev pub do_it : ℕ
do_it = 253

abbrev pub wont : ℕ
wont = 252

abbrev pub will : ℕ
will = 251

abbrev pub sb : ℕ
sb = 250

abbrev pub ayt : ℕ
ayt = 246

abbrev pub nop : ℕ
nop = 241

abbrev pub se : ℕ
se = 240
