-- ===== src/Text/Utf8.antt =====
-- UTF-8 byte classes of src/bridge.c. src/telnet.c has its own copies of two of them, which compute
-- the same.
pub mod Classes
use modembridge.Prelude.{
  ℕ, suc, Bool, true, false, not, ◌&&◌, List, [], ◌∷◌, bit_and, ◌==◌, length, if◌then◌else◌,
}

unfoldable pub is_utf8_start : ℕ → Bool
is_utf8_start byte = bit_and byte 0xc0 == 0xc0 && not (bit_and byte 0xfe == 0xfe)

unfoldable pub is_utf8_continuation : ℕ → Bool
is_utf8_continuation byte = bit_and byte 0xc0 == 0x80

-- 0 stands for a byte that starts no sequence.
unfoldable pub utf8_sequence_length : ℕ → ℕ
utf8_sequence_length byte =
    if bit_and byte 0x80 == 0x00
    then 1
    else if bit_and byte 0xe0 == 0xc0
    then 2
    else if bit_and byte 0xf0 == 0xe0
    then 3
    else if bit_and byte 0xf8 == 0xf0
    then 4
    else 0

-- The loop of `is_valid_utf8_sequence`, over `seq` from index 1 on.
pub all_continuation : List ℕ → Bool
all_continuation [] = true
all_continuation (c ∷ cs) = is_utf8_continuation c && all_continuation cs

unfoldable pub is_valid_utf8_sequence : List ℕ → Bool
unfolding all_continuation utf8_sequence_length is_utf8_continuation
is_valid_utf8_sequence [] = false
is_valid_utf8_sequence (c ∷ cs) =
    let expected_len = utf8_sequence_length c in
    if expected_len == 0
    then false
    else if expected_len == suc (length cs)
    then all_continuation cs
    else false
