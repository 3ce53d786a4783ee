-- ===== src/Level3/Multibyte/Ranges.antt =====
-- The tests on single bytes of src/level3.c as ranges.
use modembridge.Prelude.{
  ℕ, ◌<◌, ◌≤◌, ◌≡◌, refl, Bool, true, false, ◌&&◌, ◌||◌, leb, ◌==◌, ==_iff, if◌then◌else◌, bit_and,
  all_below, all_below_at, arith,
}
use modembridge.Level3.Multibyte.{
  is_multibyte_start, get_multibyte_length, is_two_lead, is_three_lead, is_four_lead,
}

-- The length of the character that starts with the byte, by the ranges of the encodings.
abbrev pub char_length : ℕ → ℕ
char_length c =
    if leb c 0x80 || c == 0xa0 || c == 0xff
    then 1
    else if leb 0xe0 c && leb c 0xef
    then 3
    else if leb 0xf0 c && leb c 0xf7
    then 4
    else 2

-- The first bytes that are taken for those of UTF-8.
abbrev pub is_utf8_lead : ℕ → Bool
is_utf8_lead c = leb 0xc0 c && leb c 0xf7

abbrev pub is_continuation : ℕ → Bool
is_continuation c = leb 0x80 c && leb c 0xbf

length_table :
    all_below 256
      (λ c. (if is_multibyte_start c then get_multibyte_length c else 1) == char_length c)
    ≡ true
unfolding all_below is_multibyte_start get_multibyte_length
length_table = refl

pub multibyte_length_lem :
    (c : ℕ) → c < 256 → (if is_multibyte_start c then get_multibyte_length c else 1) ≡ char_length c
multibyte_length_lem c h = (==_iff _ _).0 (all_below_at 256 _ c length_table h)

abbrev same_bool : Bool → Bool → Bool
same_bool true b = b
same_bool false true = false
same_bool false false = true

same_bool-eq : (a b : Bool) → same_bool a b ≡ true → a ≡ b
same_bool-eq true b h = ground arith
same_bool-eq false true h = ground arith
same_bool-eq false false h = refl

start_table : all_below 256 (λ c. same_bool (is_multibyte_start c) (leb 2 (char_length c))) ≡ true
unfolding all_below is_multibyte_start
start_table = refl

pub is_multibyte_start_lem : (c : ℕ) → c < 256 → is_multibyte_start c ≡ leb 2 (char_length c)
is_multibyte_start_lem c h = same_bool-eq _ _ (all_below_at 256 _ c start_table h)

lead_table :
    all_below 256
      (λ c. same_bool (is_two_lead c || is_three_lead c || is_four_lead c) (is_utf8_lead c))
    ≡ true
unfolding all_below
lead_table = refl

pub is_lead_lem :
    (c : ℕ) → c < 256 → (is_two_lead c || is_three_lead c || is_four_lead c) ≡ is_utf8_lead c
is_lead_lem c h = same_bool-eq _ _ (all_below_at 256 _ c lead_table h)

continuation_table :
    all_below 256 (λ c. same_bool (bit_and c 0xc0 == 0x80) (is_continuation c)) ≡ true
unfolding all_below
continuation_table = refl

pub is_continuation_lem : (c : ℕ) → c < 256 → (bit_and c 0xc0 == 0x80) ≡ is_continuation c
is_continuation_lem c h = same_bool-eq _ _ (all_below_at 256 _ c continuation_table h)

pub char_length_le : (c : ℕ) → char_length c ≤ 4
char_length_le c = ground arith

pub long_length : (c : ℕ) → is_utf8_lead c ≡ true → 2 ≤ char_length c
long_length c h = ground (arith, h)

pub long_lead : (c : ℕ) → is_utf8_lead c ≡ true → leb 2 (char_length c) ≡ true
long_lead c h = ground (arith, h)
