-- ===== src/Config/Words.antt =====
-- The keys, the words and the default texts of src/config.c and include/common.h.
use modembridge.Prelude.{ℕ, List, [], ◌∷◌}

abbrev pub serial_port_key : List ℕ
serial_port_key = b'S' ∷ b'E' ∷ b'R' ∷ b'I' ∷ b'A' ∷ b'L' ∷ b'_' ∷ b'P' ∷ b'O' ∷ b'R' ∷ b'T' ∷ []

abbrev pub comport_key : List ℕ
comport_key = b'C' ∷ b'O' ∷ b'M' ∷ b'P' ∷ b'O' ∷ b'R' ∷ b'T' ∷ []

abbrev pub baudrate_key : List ℕ
baudrate_key = b'B' ∷ b'A' ∷ b'U' ∷ b'D' ∷ b'R' ∷ b'A' ∷ b'T' ∷ b'E' ∷ []

abbrev pub bit_parity_key : List ℕ
bit_parity_key = b'B' ∷ b'I' ∷ b'T' ∷ b'_' ∷ b'P' ∷ b'A' ∷ b'R' ∷ b'I' ∷ b'T' ∷ b'Y' ∷ []

abbrev pub bit_data_key : List ℕ
bit_data_key = b'B' ∷ b'I' ∷ b'T' ∷ b'_' ∷ b'D' ∷ b'A' ∷ b'T' ∷ b'A' ∷ []

abbrev pub bit_stop_key : List ℕ
bit_stop_key = b'B' ∷ b'I' ∷ b'T' ∷ b'_' ∷ b'S' ∷ b'T' ∷ b'O' ∷ b'P' ∷ []

abbrev pub flow_key : List ℕ
flow_key = b'F' ∷ b'L' ∷ b'O' ∷ b'W' ∷ []

abbrev pub modem_init_key : List ℕ
modem_init_key =
    b'M' ∷ b'O' ∷ b'D' ∷ b'E' ∷ b'M' ∷ b'_' ∷ b'I' ∷ b'N' ∷ b'I' ∷ b'T' ∷ b'_' ∷ b'C' ∷ b'O' ∷ b'M'
    ∷ b'M' ∷ b'A' ∷ b'N' ∷ b'D' ∷ []

abbrev pub autoanswer_mode_key : List ℕ
autoanswer_mode_key =
    b'M' ∷ b'O' ∷ b'D' ∷ b'E' ∷ b'M' ∷ b'_' ∷ b'A' ∷ b'U' ∷ b'T' ∷ b'O' ∷ b'A' ∷ b'N' ∷ b'S' ∷ b'W'
    ∷ b'E' ∷ b'R' ∷ b'_' ∷ b'M' ∷ b'O' ∷ b'D' ∷ b'E' ∷ []

abbrev pub autoanswer_software_key : List ℕ
autoanswer_software_key =
    b'M' ∷ b'O' ∷ b'D' ∷ b'E' ∷ b'M' ∷ b'_' ∷ b'A' ∷ b'U' ∷ b'T' ∷ b'O' ∷ b'A' ∷ b'N' ∷ b'S' ∷ b'W'
    ∷ b'E' ∷ b'R' ∷ b'_' ∷ b'S' ∷ b'O' ∷ b'F' ∷ b'T' ∷ b'W' ∷ b'A' ∷ b'R' ∷ b'E' ∷ b'_' ∷ b'C'
    ∷ b'O' ∷ b'M' ∷ b'M' ∷ b'A' ∷ b'N' ∷ b'D' ∷ []

abbrev pub autoanswer_hardware_key : List ℕ
autoanswer_hardware_key =
    b'M' ∷ b'O' ∷ b'D' ∷ b'E' ∷ b'M' ∷ b'_' ∷ b'A' ∷ b'U' ∷ b'T' ∷ b'O' ∷ b'A' ∷ b'N' ∷ b'S' ∷ b'W'
    ∷ b'E' ∷ b'R' ∷ b'_' ∷ b'H' ∷ b'A' ∷ b'R' ∷ b'D' ∷ b'W' ∷ b'A' ∷ b'R' ∷ b'E' ∷ b'_' ∷ b'C'
    ∷ b'O' ∷ b'M' ∷ b'M' ∷ b'A' ∷ b'N' ∷ b'D' ∷ []

abbrev pub autoanswer_key : List ℕ
autoanswer_key =
    b'M' ∷ b'O' ∷ b'D' ∷ b'E' ∷ b'M' ∷ b'_' ∷ b'A' ∷ b'U' ∷ b'T' ∷ b'O' ∷ b'A' ∷ b'N' ∷ b'S' ∷ b'W'
    ∷ b'E' ∷ b'R' ∷ b'_' ∷ b'C' ∷ b'O' ∷ b'M' ∷ b'M' ∷ b'A' ∷ b'N' ∷ b'D' ∷ []

abbrev pub modem_command_key : List ℕ
modem_command_key =
    b'M' ∷ b'O' ∷ b'D' ∷ b'E' ∷ b'M' ∷ b'_' ∷ b'C' ∷ b'O' ∷ b'M' ∷ b'M' ∷ b'A' ∷ b'N' ∷ b'D' ∷ []

abbrev pub modem_health_key : List ℕ
modem_health_key =
    b'M' ∷ b'O' ∷ b'D' ∷ b'E' ∷ b'M' ∷ b'_' ∷ b'H' ∷ b'E' ∷ b'A' ∷ b'L' ∷ b'T' ∷ b'H' ∷ b'_' ∷ b'C'
    ∷ b'O' ∷ b'M' ∷ b'M' ∷ b'A' ∷ b'N' ∷ b'D' ∷ []

abbrev pub telnet_host_key : List ℕ
telnet_host_key = b'T' ∷ b'E' ∷ b'L' ∷ b'N' ∷ b'E' ∷ b'T' ∷ b'_' ∷ b'H' ∷ b'O' ∷ b'S' ∷ b'T' ∷ []

abbrev pub telnet_port_key : List ℕ
telnet_port_key = b'T' ∷ b'E' ∷ b'L' ∷ b'N' ∷ b'E' ∷ b'T' ∷ b'_' ∷ b'P' ∷ b'O' ∷ b'R' ∷ b'T' ∷ []

abbrev pub data_log_enabled_key : List ℕ
data_log_enabled_key =
    b'D' ∷ b'A' ∷ b'T' ∷ b'A' ∷ b'_' ∷ b'L' ∷ b'O' ∷ b'G' ∷ b'_' ∷ b'E' ∷ b'N' ∷ b'A' ∷ b'B' ∷ b'L'
    ∷ b'E' ∷ b'D' ∷ []

abbrev pub data_log_file_key : List ℕ
data_log_file_key =
    b'D' ∷ b'A' ∷ b'T' ∷ b'A' ∷ b'_' ∷ b'L' ∷ b'O' ∷ b'G' ∷ b'_' ∷ b'F' ∷ b'I' ∷ b'L' ∷ b'E' ∷ []

abbrev pub echo_enabled_key : List ℕ
echo_enabled_key =
    b'E' ∷ b'C' ∷ b'H' ∷ b'O' ∷ b'_' ∷ b'E' ∷ b'N' ∷ b'A' ∷ b'B' ∷ b'L' ∷ b'E' ∷ b'D' ∷ []

abbrev pub echo_immediate_key : List ℕ
echo_immediate_key =
    b'E' ∷ b'C' ∷ b'H' ∷ b'O' ∷ b'_' ∷ b'I' ∷ b'M' ∷ b'M' ∷ b'E' ∷ b'D' ∷ b'I' ∷ b'A' ∷ b'T' ∷ b'E'
    ∷ []

abbrev pub echo_first_delay_key : List ℕ
echo_first_delay_key =
    b'E' ∷ b'C' ∷ b'H' ∷ b'O' ∷ b'_' ∷ b'F' ∷ b'I' ∷ b'R' ∷ b'S' ∷ b'T' ∷ b'_' ∷ b'D' ∷ b'E' ∷ b'L'
    ∷ b'A' ∷ b'Y' ∷ []

abbrev pub echo_min_interval_key : List ℕ
echo_min_interval_key =
    b'E' ∷ b'C' ∷ b'H' ∷ b'O' ∷ b'_' ∷ b'M' ∷ b'I' ∷ b'N' ∷ b'_' ∷ b'I' ∷ b'N' ∷ b'T' ∷ b'E' ∷ b'R'
    ∷ b'V' ∷ b'A' ∷ b'L' ∷ []

abbrev pub echo_prefix_key : List ℕ
echo_prefix_key = b'E' ∷ b'C' ∷ b'H' ∷ b'O' ∷ b'_' ∷ b'P' ∷ b'R' ∷ b'E' ∷ b'F' ∷ b'I' ∷ b'X' ∷ []

abbrev pub none_word : List ℕ
none_word = b'N' ∷ b'O' ∷ b'N' ∷ b'E' ∷ []

abbrev pub even_word : List ℕ
even_word = b'E' ∷ b'V' ∷ b'E' ∷ b'N' ∷ []

abbrev pub odd_word : List ℕ
odd_word = b'O' ∷ b'D' ∷ b'D' ∷ []

abbrev pub xon_word : List ℕ
xon_word = b'X' ∷ b'O' ∷ b'N' ∷ b'/' ∷ b'X' ∷ b'O' ∷ b'F' ∷ b'F' ∷ []

abbrev pub rts_word : List ℕ
rts_word = b'R' ∷ b'T' ∷ b'S' ∷ b'/' ∷ b'C' ∷ b'T' ∷ b'S' ∷ []

abbrev pub both_word : List ℕ
both_word = b'B' ∷ b'O' ∷ b'T' ∷ b'H' ∷ []

abbrev pub default_serial_text : List ℕ
default_serial_text =
    b'/' ∷ b'd' ∷ b'e' ∷ b'v' ∷ b'/' ∷ b't' ∷ b't' ∷ b'y' ∷ b'U' ∷ b'S' ∷ b'B' ∷ b'0' ∷ []

abbrev pub default_host_text : List ℕ
default_host_text = b'1' ∷ b'2' ∷ b'7' ∷ b'.' ∷ b'0' ∷ b'.' ∷ b'0' ∷ b'.' ∷ b'1' ∷ []

abbrev pub default_pid_text : List ℕ
default_pid_text =
    b'/' ∷ b'v' ∷ b'a' ∷ b'r' ∷ b'/' ∷ b'r' ∷ b'u' ∷ b'n' ∷ b'/' ∷ b'm' ∷ b'o' ∷ b'd' ∷ b'e' ∷ b'm'
    ∷ b'b' ∷ b'r' ∷ b'i' ∷ b'd' ∷ b'g' ∷ b'e' ∷ b'.' ∷ b'p' ∷ b'i' ∷ b'd' ∷ []

abbrev pub default_log_text : List ℕ
default_log_text =
    b'm' ∷ b'o' ∷ b'd' ∷ b'e' ∷ b'm' ∷ b'b' ∷ b'r' ∷ b'i' ∷ b'd' ∷ b'g' ∷ b'e' ∷ b'.' ∷ b'l' ∷ b'o'
    ∷ b'g' ∷ []

abbrev pub default_prefix_text : List ℕ
default_prefix_text =
    b'[' ∷ b'f' ∷ b'r' ∷ b'o' ∷ b'm' ∷ b' ' ∷ b's' ∷ b'e' ∷ b'r' ∷ b'v' ∷ b'e' ∷ b'r' ∷ b']' ∷ []
