-- ===== src/Text/Utf8/Classes.antt =====
-- How the byte classes of src/bridge.c divide the bytes.
use modembridge.Prelude.{
  ℕ, suc, ◌<◌, ◌≡◌, ◌↔◌, refl, Bool, true, not, ◌&&◌, List, [], ◌∷◌, arith, length, ltb, leb, ◌==◌,
  if◌then◌else◌, All, all_below, all_below_at,
}
use modembridge.Text.Utf8.{
  is_utf8_start, is_utf8_continuation, utf8_sequence_length, all_continuation,
  is_valid_utf8_sequence,
}

-- The ranges of the byte values.
abbrev pub start_range : ℕ → Bool
start_range b = leb 0xc0 b && ltb b 0xfe

abbrev pub continuation_range : ℕ → Bool
continuation_range b = leb 0x80 b && ltb b 0xc0

abbrev pub length_by_range : ℕ → ℕ
length_by_range b =
    if ltb b 0x80
    then 1
    else if ltb b 0xc0
    then 0
    else if ltb b 0xe0
    then 2
    else if ltb b 0xf0
    then 3
    else if ltb b 0xf8
    then 4
    else 0

abbrev same : Bool → Bool → Bool
same a b = if a then b else not b

abbrev by_range : ℕ → Bool
by_range b =
    same (is_utf8_start b) (start_range b)
    && same (is_utf8_continuation b) (continuation_range b)
    && (utf8_sequence_length b == length_by_range b)

table : all_below 256 by_range ≡ true
unfolding all_below is_utf8_start is_utf8_continuation utf8_sequence_length
table = refl

parts :
    (s s' k k' : Bool) (n n' : ℕ)
    → (same s s' && same k k' && (n == n')) ≡ true
    → (s ≡ s') × (k ≡ k') × (n ≡ n')
parts s s' k k' n n' h = (ground arith, ground arith, ground arith)

-- The masks of the three tests select ranges of bytes: 0xC0 to 0xFD start a sequence, 0x80 to 0xBF
-- continue one, and the length is 1 below 0x80, 2 from 0xC0, 3 from 0xE0, 4 from 0xF0 and 0
-- elsewhere. So 0xF8 to 0xFD count as starts although they have no length.
utf8_ranges :
    (b : ℕ)
    → b < 256
    → (is_utf8_start b ≡ start_range b)
      × (is_utf8_continuation b ≡ continuation_range b)
      × (utf8_sequence_length b ≡ length_by_range b)
utf8_ranges b h = parts _ _ _ _ _ _ (all_below_at 256 by_range b table h)

all_continuation_iff :
    (cs : List ℕ) → (all_continuation cs ≡ true) ↔ All (λ c. is_utf8_continuation c ≡ true) cs
unfolding all_continuation
all_continuation_iff [] = (λ h. tt, λ h. refl)
all_continuation_iff (c ∷ cs) =
    let (to, from) = all_continuation_iff cs in
    (λ h. (ground arith, to (ground arith)), λ (a, b). let e = from b in ground (arith, e))

-- A byte string is a valid sequence exactly where its first byte announces its length and every
-- other byte continues.
is_valid_utf8_sequence_iff :
    (c : ℕ) (cs : List ℕ)
    → (is_valid_utf8_sequence (c ∷ cs) ≡ true)
      ↔ ((utf8_sequence_length c ≡ suc (length cs)) × All (λ b. is_utf8_continuation b ≡ true) cs)
unfolding is_valid_utf8_sequence
is_valid_utf8_sequence_iff c cs =
    let (to, from) = all_continuation_iff cs in
    (λ h. (ground arith, to (ground arith)), λ (a, b). let e = from b in ground (arith, e))
