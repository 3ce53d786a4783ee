-- ===== src/Level3/Multibyte.antt =====
-- The characters of several bytes in src/level3.c: `l3_is_multibyte_start`,
-- `l3_get_multibyte_length` and `l3_is_multibyte_complete`.
pub mod Ranges
use modembridge.Prelude.{
  ℕ, zero, suc, ◌-◌, Bool, true, false, ◌&&◌, ◌||◌, List, [], ◌∷◌, ltb, leb, ◌==◌, if◌then◌else◌,
  bit_and, length, take,
}

abbrev pub is_two_lead : ℕ → Bool
is_two_lead c = bit_and c 0xe0 == 0xc0

abbrev pub is_three_lead : ℕ → Bool
is_three_lead c = bit_and c 0xf0 == 0xe0

abbrev pub is_four_lead : ℕ → Bool
is_four_lead c = bit_and c 0xf8 == 0xf0

-- The high byte of EUC-KR and EUC-JP.
abbrev is_euc_high : ℕ → Bool
is_euc_high c = leb 0xa1 c && leb c 0xfe

-- The first byte of Shift-JIS.
abbrev is_sjis_first : ℕ → Bool
is_sjis_first c = leb 0x81 c && leb c 0x9f || leb 0xe0 c && leb c 0xfc

-- `l3_is_multibyte_start`.
unfoldable pub is_multibyte_start : ℕ → Bool
is_multibyte_start c =
    if is_two_lead c
    then true
    else if is_three_lead c
    then true
    else if is_four_lead c
    then true
    else if is_euc_high c
    then true
    else is_sjis_first c

-- `l3_get_multibyte_length`.
unfoldable pub get_multibyte_length : ℕ → ℕ
get_multibyte_length c =
    if is_two_lead c
    then 2
    else if is_three_lead c
    then 3
    else if is_four_lead c
    then 4
    else if is_euc_high c
    then 2
    else if is_sjis_first c
    then 2
    else 1

unfoldable pub all_continuation : List ℕ → Bool
all_continuation [] = true
all_continuation (c ∷ cs) = bit_and c 0xc0 == 0x80 && all_continuation cs

-- `l3_is_multibyte_complete`, of a buffer that has a first byte.
unfoldable pub is_multibyte_complete : ℕ → List ℕ → ℕ → Bool
unfolding all_continuation
is_multibyte_complete first rest expected =
    if ltb (suc (length rest)) expected
    then false
    else if is_two_lead first || is_three_lead first || is_four_lead first
    then all_continuation (take (expected - 1) rest)
    else true
