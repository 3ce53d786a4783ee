-- ===== src/Modem/Escape.antt =====
-- The escape sequence of src/modem.c: `modem_check_escape_sequence`, `modem_get_escape_guard_time`
-- and `modem_get_escape_character`.
pub mod Detects
pub mod Counted
use modembridge.Prelude.{
  ℕ, suc, ◌+◌, ◌-◌, ◌*◌, ◌%◌, Bool, true, false, ◌||◌, Option, none, some, List, [], ◌∷◌, ltb, leb,
  ◌==◌, if◌then◌else◌, ◌&&◌,
}
use modembridge.Modem.State.{Modem, escape_guard_time, escape_code, int_bound}
use modembridge.Modem.Call.{get_sreg}

-- `modem_get_escape_guard_time`; a product that leaves the `int` is undefined.
unfoldable pub get_escape_guard_time : Modem → Option ℕ
get_escape_guard_time modem =
    let s12 = get_sreg modem escape_guard_time in
    let units = if s12 == 0 then 20 else s12 in
    if ltb (units * 50) int_bound then some (units * 50) else none

-- `modem_get_escape_character`: the low byte of the register.
unfoldable pub get_escape_character : Modem → ℕ
get_escape_character modem = get_sreg modem escape_code % 256

-- Whether `(now - last) * 1000`, cut to an `int`, is below the guard time.
unfoldable pub is_within : ℕ → ℕ → ℕ → Bool
is_within now last guard =
    let wrapped = (now * 1000 + (4294967296 - (last * 1000) % 4294967296)) % 4294967296 in
    leb int_bound wrapped || ltb wrapped guard

-- The modem with another count and time.
abbrev pub counted : ℕ → ℕ → Modem → Modem
counted count time modem = record modem { escape_count = count; last_escape_time = time }

-- The count that an escape character makes: out of the guard time it starts again.
unfoldable pub next_count : ℕ → ℕ → Modem → ℕ
next_count now guard modem =
    if modem.escape_count == 0 || is_within now modem.last_escape_time guard
    then modem.escape_count + 1
    else 1

-- The count and the time after one byte.
unfoldable pub tracked : ℕ → ℕ → Bool → Modem → Modem
tracked now guard true modem = counted (next_count now guard modem) now modem
tracked now guard false modem = counted 0 modem.last_escape_time modem

-- The loop, at byte `i`, with what is consumed so far.
unfoldable pub escape_from : ℕ → ℕ → ℕ → List ℕ → ℕ → ℕ → Modem → Bool × ℕ × Modem
escape_from now escape guard [] i consumed modem = (false, consumed, modem)
escape_from now escape guard (c ∷ bytes) i consumed modem =
    let after =
      escape_from now escape guard bytes (i + 1) (if c == escape then i + 1 else consumed)
        (tracked now guard (c == escape) modem) in
    if c == escape && leb 3 (next_count now guard modem)
    then (true, i + 1, counted 0 now modem)
    else after

-- The check, with the guard time.
unfoldable pub check_within : ℕ → List ℕ → Modem → Option ℕ → Option (Bool × ℕ × Modem)
check_within now bytes modem none = none
check_within now bytes modem (some guard) =
    some (escape_from now (get_escape_character modem) guard bytes 0 0 modem)

-- `modem_check_escape_sequence`, at one time.
unfoldable pub check_escape_sequence : ℕ → List ℕ → Modem → Option (Bool × ℕ × Modem)
check_escape_sequence now bytes modem = check_within now bytes modem (get_escape_guard_time modem)
