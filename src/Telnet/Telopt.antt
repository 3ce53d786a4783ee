-- ===== src/Telnet/Telopt.antt =====
-- The telnet options that the client knows (TELOPT_ in include/telnet.h).
use modembridge.Prelude.{ℕ}

abbrev pub binary : ℕ
binary = 0

abbrev pub echo : ℕ
echo = 1

abbrev pub sga : ℕ
sga = 3

abbrev pub ttype : ℕ
ttype = 24

abbrev pub linemode : ℕ
linemode = 34
