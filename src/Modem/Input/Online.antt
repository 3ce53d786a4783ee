-- ===== src/Modem/Input/Online.antt =====
-- What `modem_process_input` of src/modem.c does with the bytes of an online modem.
use modembridge.Prelude.{
  ℕ, ◌≤◌, ◌<◌, ◌≡◌, sym, ap, ◌∙◌, true, false, ◌||◌, Option, some, List, [], ◌++◌, arith, length,
  replicate, ◌⊎◌, inl, inr, Bool-cases, ◌==◌, if◌then◌else◌, subst, drop,
}
use modembridge.Modem.State.{Modem, Serial, command_mode}
use modembridge.Modem.Response.{send_response, ok_text}
use modembridge.Modem.Response.Spoken.{said_ok, send_response_ok}
use modembridge.Modem.Call.{go_offline}
use modembridge.Modem.Escape.{
  escape_from, is_within, counted, get_escape_character, get_escape_guard_time, check_within,
  check_escape_sequence,
}
use modembridge.Modem.Escape.Detects.{has_three, escape_from_lem, guard_pos}
use modembridge.Modem.Input.{escaped, process_input, consumed_all, process_chars, filter_hayes_data}
use modembridge.Modem.Escape.Counted.{escape_from-counted}

-- How the bytes are taken: all of them, or an escape sequence among them.
abbrev pub Passes : ℕ → Modem → Option (ℕ × Modem) → Type 0
Passes len m r = (count last : ℕ) × (r ≡ some (len, counted count last m))

-- Command mode, with the carrier and the settings as they were, and `OK` said.
abbrev in_command : Modem → Modem
in_command m = record m {
  state = command_mode;
  online = false;
  escape_count = 0;
  last_escape_time = 0;
  cmd_buffer = [];
  actions = said_ok m.settings ++ m.actions;
}

abbrev pub Escapes : ℕ → Modem → Option (ℕ × Modem) → Type 0
Escapes len m r = (n : ℕ) × ((n ≤ len) × (r ≡ some (n, in_command m)))

escaped_lem :
    (serial : Serial) (bytes : List ℕ) (now guard e : ℕ) (m : Modem)
    → let run = escape_from now e guard bytes 0 0 m in
      let r = escaped serial (length bytes) (some run) in
      ((run.0 ≡ false) × Passes (length bytes) m r) ⊎ ((run.0 ≡ true) × Escapes (length bytes) m r)
unfolding escaped go_offline
escaped_lem serial bytes now guard e m =
    let (count, last, (q, l)) = escape_from-counted now e guard bytes 0 0 m (omega arith) in
    elim (Bool-cases (escape_from now e guard bytes 0 0 m).0) [
      | inl d ↦ inr (
        d,
        (
          (escape_from now e guard bytes 0 0 m).1,
          (
            omega (arith, l),
            rw d (
                ap
                  (λ (t : Modem). some (
                    (escape_from now e guard bytes 0 0 m).1,
                    (send_response serial ok_text (go_offline t)).1,
                  ))
                  q
                ∙ ap (λ (t : Modem). some ((escape_from now e guard bytes 0 0 m).1, t))
                    (send_response_ok serial (go_offline (counted count last m)))),
          ),
        ),
      )
      | inr d ↦ inl (d, (count, last, rw d (ap (λ (t : Modem). some (length bytes, t)) q)))
    ]

online_run :
    (serial : Serial) (stack : ℕ → List ℕ) (now guard : ℕ) (bytes : List ℕ) (m : Modem)
    → m.online ≡ true
    → get_escape_guard_time m ≡ some guard
    → process_input serial stack now bytes m
      ≡ escaped serial
          (length bytes)
          (some (escape_from now (get_escape_character m) guard bytes 0 0 m))
unfolding process_input check_escape_sequence check_within
online_run serial stack now guard bytes m o g =
    let len = length bytes in
    let commands =
      consumed_all len
        (process_chars serial stack (drop (filter_hayes_data bytes true) bytes) (some m)) in
    ap
      (λ b.
        if b
        then escaped serial len (check_within now bytes m (get_escape_guard_time m))
        else commands)
      o
    ∙ ap (λ t. escaped serial len (check_within now bytes m t)) g

-- An online modem, at one time, with fewer than three escape characters counted and the last of them
-- in the guard time. Where the escape character does not stand three times in a row in the counted
-- characters followed by the bytes, all bytes are taken and nothing but the count and its time
-- changes. Where it does, the modem is offline in command mode with an empty command line, its
-- carrier and its settings as they were, and the last call of the serial port is `OK` between line
-- ends, or its code 0, or none where the modem is quiet; nothing of what stands behind the sequence
-- is read as a command. No silence before or behind the sequence is asked for.
pub process_input_online :
    (serial : Serial) (stack : ℕ → List ℕ) (now guard : ℕ) (bytes : List ℕ) (m : Modem)
    → m.online ≡ true
    → get_escape_guard_time m ≡ some guard
    → m.escape_count < 3
    → (m.escape_count == 0 || is_within now m.last_escape_time guard) ≡ true
    → let e = get_escape_character m in
      let found = has_three e (replicate m.escape_count e ++ bytes) in
      let r = process_input serial stack now bytes m in
      ((found ≡ false) × Passes (length bytes) m r) ⊎ ((found ≡ true) × Escapes (length bytes) m r)
process_input_online serial stack now guard bytes m o g l t =
    let e = get_escape_character m in
    let found = escape_from_lem now e guard bytes 0 0 m (guard_pos m guard g) l t in
    let run = sym (online_run serial stack now guard bytes m o g) in
    elim (escaped_lem serial bytes now guard e m) [
      | inl (a, p) ↦ inl (sym found ∙ a, subst (Passes (length bytes) m) run p)
      | inr (a, p) ↦ inr (sym found ∙ a, subst (Escapes (length bytes) m) run p)
    ]
