-- ===== src/Modem/Escape/Counted.antt =====
-- What `modem_check_escape_sequence` of src/modem.c changes.
use modembridge.Prelude.{
  ℕ, ◌+◌, ◌≤◌, ◌≡◌, refl, List, [], ◌∷◌, arith, length, Bool-cases, inl, inr, leb, ◌==◌,
}
use modembridge.Modem.State.{Modem}
use modembridge.Modem.Escape.{escape_from, tracked, counted, next_count}

-- The escape check changes only its count and its time, and consumes no more than there is.
pub escape_from-counted :
    (now e guard : ℕ) (bytes : List ℕ) (i consumed : ℕ) (m : Modem)
    → consumed ≤ i
    → (count last : ℕ) × (((escape_from now e guard bytes i consumed m).2 ≡ counted count last m)
        × ((escape_from now e guard bytes i consumed m).1 ≤ i + length bytes))
unfolding escape_from tracked
escape_from-counted now e guard [] i consumed m h =
    (m.escape_count, m.last_escape_time, (refl, omega arith))
escape_from-counted now e guard (c ∷ bytes) i consumed m h = elim (Bool-cases (c == e)) [
  | inl k ↦ rw k (elim (Bool-cases (leb 3 (next_count now guard m))) [
    | inl d ↦ rw d (0, now, (refl, omega arith))
    | inr d ↦ rw d (
        let (count, last, (q, l)) =
          escape_from-counted now e guard bytes (i + 1) (i + 1)
            (counted (next_count now guard m) now m) (omega arith) in
        (count, last, (q, omega (arith, l))))
  ])
  | inr k ↦ rw k (
      let (count, last, (q, l)) =
        escape_from-counted now e guard bytes (i + 1) consumed (counted 0 m.last_escape_time m)
          (omega arith) in
      (count, last, (q, omega (arith, l))))
]
