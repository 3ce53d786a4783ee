-- ===== src/Modem/Escape/Detects.antt =====
-- What `modem_check_escape_sequence` of src/modem.c finds.
use modembridge.Prelude.{
  ℕ, zero, suc, ◌+◌, ◌-◌, ◌*◌, ◌%◌, ◌<◌, ◌≡◌, refl, sym, ◌∙◌, Bool, true, false, ◌||◌, ◌&&◌, Option,
  none, some, List, [], ◌∷◌, ◌++◌, arith, leb, ◌==◌, replicate, Bool-cases, inl, inr, ap, subst,
}
use modembridge.Modem.State.{Modem}
use modembridge.Modem.Escape.{
  escape_from, is_within, counted, check_escape_sequence, get_escape_guard_time,
  get_escape_character, next_count, tracked, check_within,
}

-- Whether the byte stands three times in a row.
unfoldable pub has_three : ℕ → List ℕ → Bool
has_three e (a ∷ b ∷ c ∷ bytes) = (a == e && (b == e && c == e)) || has_three e (b ∷ c ∷ bytes)
has_three e bytes = false

-- At one time, any guard time is kept.
within_now : (now guard : ℕ) → 0 < guard → is_within now now guard ≡ true
unfolding is_within
within_now now guard h =
    let e : (now * 1000 + (4294967296 - (now * 1000) % 4294967296)) % 4294967296 ≡ 0 =
      omega arith in
    rw e (ground arith)

skip_none :
    (e c : ℕ) (bytes : List ℕ) → (c == e) ≡ false → has_three e (c ∷ bytes) ≡ has_three e bytes
unfolding has_three
skip_none e c [] h = refl
skip_none e c (x ∷ []) h = refl
skip_none e c (x ∷ y ∷ bytes) h = rw h refl

skip_one :
    (e c : ℕ) (bytes : List ℕ)
    → (c == e) ≡ false
    → has_three e (e ∷ c ∷ bytes) ≡ has_three e (c ∷ bytes)
unfolding has_three
skip_one e c [] h = refl
skip_one e c (x ∷ bytes) h = ground (arith, h)

skip_two :
    (e c : ℕ) (bytes : List ℕ)
    → (c == e) ≡ false
    → has_three e (e ∷ e ∷ c ∷ bytes) ≡ has_three e (e ∷ c ∷ bytes)
unfolding has_three
skip_two e c bytes h = ground (arith, h)

-- Another byte makes what was counted of no use.
three_skip :
    (e c k : ℕ) (bytes : List ℕ)
    → (c == e) ≡ false
    → k < 3
    → has_three e (replicate k e ++ (c ∷ bytes)) ≡ has_three e bytes
three_skip e c zero bytes h l = skip_none e c bytes h
three_skip e c (suc zero) bytes h l = skip_one e c bytes h ∙ skip_none e c bytes h
three_skip e c (suc (suc zero)) bytes h l =
    skip_two e c bytes h ∙ (skip_one e c bytes h ∙ skip_none e c bytes h)
three_skip e c (suc (suc (suc k))) bytes h l = absurd (omega arith)

three_none : (e k : ℕ) → k < 3 → has_three e (replicate k e ++ []) ≡ false
unfolding has_three
three_none e zero l = refl
three_none e (suc zero) l = refl
three_none e (suc (suc zero)) l = refl
three_none e (suc (suc (suc k))) l = absurd (omega arith)

three_found : (e : ℕ) (bytes : List ℕ) → has_three e (e ∷ e ∷ e ∷ bytes) ≡ true
unfolding has_three
three_found e bytes = ground arith

-- An escape character goes over from the bytes to those counted.
moved :
    (e c k : ℕ) (bytes : List ℕ)
    → (c == e) ≡ true
    → replicate k e ++ (c ∷ bytes) ≡ replicate (suc k) e ++ bytes
moved e c zero bytes h = ground (arith, h)
moved e c (suc k) bytes h = ap (λ t. e ∷ t) (moved e c k bytes h)

-- A character that completes three.
completed :
    (e c k : ℕ) (bytes : List ℕ)
    → (c == e) ≡ true
    → k < 3
    → leb 3 (suc k) ≡ true
    → has_three e (replicate k e ++ (c ∷ bytes)) ≡ true
completed e c k bytes h l d =
    let two : k ≡ 2 = ground arith in
    subst (λ j. has_three e (replicate j e ++ (c ∷ bytes)) ≡ true) (sym two)
      (subst (λ t. has_three e t ≡ true) (sym (moved e c 2 bytes h)) (three_found e bytes))

next_count_lem :
    (now guard : ℕ) (m : Modem)
    → (m.escape_count == 0 || is_within now m.last_escape_time guard) ≡ true
    → next_count now guard m ≡ suc m.escape_count
unfolding next_count
next_count_lem now guard m t = rw t (omega arith)

-- The loop finds what stands three times in a row once the bytes counted so far are put in front.
pub escape_from_lem :
    (now e guard : ℕ) (bytes : List ℕ) (i consumed : ℕ) (m : Modem)
    → 0 < guard
    → m.escape_count < 3
    → (m.escape_count == 0 || is_within now m.last_escape_time guard) ≡ true
    → (escape_from now e guard bytes i consumed m).0
      ≡ has_three e (replicate m.escape_count e ++ bytes)
unfolding escape_from tracked
escape_from_lem now e guard [] i consumed m g l t = sym (three_none e m.escape_count l)
escape_from_lem now e guard (c ∷ bytes) i consumed m g l t =
    let n = next_count_lem now guard m t in
    elim (Bool-cases (c == e)) [
      | inl h ↦
          rw (h, n)
            (elim (Bool-cases (leb 3 (suc m.escape_count))) [
              | inl d ↦ rw d (sym (completed e c m.escape_count bytes h l d))
              | inr d ↦ rw d (
                  escape_from_lem now e guard bytes (i + 1) (i + 1)
                    (counted (suc m.escape_count) now m) g (ground (arith, d))
                    (ground (arith, within_now now guard g))
                  ∙ ap (has_three e) (sym (moved e c m.escape_count bytes h)))
            ])
      | inr h ↦ rw h (
          escape_from_lem now e guard bytes (i + 1) consumed (counted 0 m.last_escape_time m) g
            (omega arith) refl
          ∙ sym (three_skip e c m.escape_count bytes h l))
    ]

pub guard_pos : (m : Modem) (guard : ℕ) → get_escape_guard_time m ≡ some guard → 0 < guard
unfolding get_escape_guard_time
guard_pos m guard h = ground arith

-- The answer of a check that is defined.
unfoldable pub is_detected : Option (Bool × ℕ × Modem) → Option Bool
is_detected none = none
is_detected (some r) = some r.0

-- At one time, with fewer than three escape characters counted and the last of them in the guard
-- time, the check finds an escape sequence exactly when the escape character stands three times in a
-- row in the counted characters followed by the bytes: what stands before it and how long the line
-- was silent before it do not matter.
pub check_escape_sequence-has_three :
    (now guard : ℕ) (bytes : List ℕ) (m : Modem)
    → get_escape_guard_time m ≡ some guard
    → m.escape_count < 3
    → (m.escape_count == 0 || is_within now m.last_escape_time guard) ≡ true
    → let e = get_escape_character m in
      is_detected (check_escape_sequence now bytes m)
      ≡ some (has_three e (replicate m.escape_count e ++ bytes))
unfolding check_escape_sequence check_within is_detected
check_escape_sequence-has_three now guard bytes m g l t = rw g (
    ap some
      (escape_from_lem now (get_escape_character m) guard bytes 0 0 m (guard_pos m guard g) l t))
