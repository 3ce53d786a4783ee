-- ===== src/Modem/Input/Valid.antt =====
-- What `modem_process_input` of src/modem.c keeps true of the modem, whatever bytes come.
use modembridge.Prelude.{
  ℕ, ◌≤◌, ◌<◌, ◌≡◌, refl, sym, subst, Bool, true, false, ◌&&◌, Option, some, none, List, [], ◌∷◌,
  ◌++◌, arith, length, length-append, drop, Bool-cases, inl, inr, ltb, ltb→lt, ◌==◌, if◌then◌else◌,
  ◌||◌,
}
use modembridge.Modem.State.{Modem, Serial, Settings, int_bound, cr_char}
use modembridge.Modem.Response.{serial_write, ok_text, error_text}
use modembridge.Modem.Call.{go_offline, answer}
use modembridge.Modem.Command.{to_upper, Outcome, returned, undefined, out_of_fuel, process_command}
use modembridge.Modem.Command.Bounds.{
  IsValid, send_response-IsValid, answer-IsValid, process_command-IsValid, InRange,
}
use modembridge.Modem.Escape.{
  escape_from, check_within, check_escape_sequence, counted, get_escape_guard_time,
  get_escape_character,
}
use modembridge.Modem.Input.{
  handle_command_echo, drop_last, backspace, outcome_modem, execute, cleared_line, end_line,
  add_char, process_char, process_chars, escaped, consumed_all, process_input, filter_hayes_data,
  is_backspace, char_is,
}
use modembridge.Modem.Escape.Counted.{escape_from-counted}

-- Of a result that is defined.
abbrev Holds : Option Modem → Type 0
Holds none = Unit
Holds (some m) = IsValid m

-- A modem with the same settings and a short command buffer.
like :
    (m m' : Modem) → m'.settings ≡ m.settings → length m'.cmd_buffer ≤ 1023 → IsValid m → IsValid m'
like m m' e h v = record {
  in_range = subst InRange (sym e) v.in_range;
  registers_lt =
      subst (λ (s : Settings). (i : ℕ) → s.s_registers i < int_bound) (sym e) v.registers_lt;
  fits = h;
}

serial_write-IsValid : (bytes : List ℕ) (m : Modem) → IsValid m → IsValid (serial_write bytes m)
unfolding serial_write
serial_write-IsValid bytes m v = like m _ refl v.fits v

length-drop_last : (bytes : List ℕ) → length (drop_last bytes) ≤ length bytes
unfolding drop_last
length-drop_last [] = omega arith
length-drop_last (c ∷ []) = omega arith
length-drop_last (c ∷ d ∷ bytes) = omega (arith, length-drop_last (d ∷ bytes))

either-IsValid : (b : Bool) (m n : Modem) → IsValid m → IsValid n → IsValid (if b then m else n)
either-IsValid true m n v w = v
either-IsValid false m n v w = w

echo-IsValid : (c : ℕ) (m : Modem) → IsValid m → IsValid (handle_command_echo c m)
unfolding handle_command_echo
echo-IsValid c m v = either-IsValid m.settings.echo _ m (serial_write-IsValid _ m v) v

backspace-IsValid : (m : Modem) → IsValid m → IsValid (backspace m)
unfolding backspace
backspace-IsValid m v =
    let shorter =
      like m (record m { cmd_buffer = drop_last m.cmd_buffer }) refl
        (omega (arith, length-drop_last m.cmd_buffer, v.fits)) v in
    either-IsValid (length m.cmd_buffer == 0) m _ v
      (either-IsValid m.settings.echo _ _ (serial_write-IsValid _ _ shorter) shorter)

add_char-IsValid : (serial : Serial) (c : ℕ) (m : Modem) → IsValid m → IsValid (add_char serial c m)
unfolding add_char
add_char-IsValid serial c m v = elim (Bool-cases (ltb (length m.cmd_buffer) 1023)) [
  | inl e ↦ rw e (
      like m (record m { cmd_buffer = m.cmd_buffer ++ (c ∷ []) }) refl
        (omega (arith, length-append m.cmd_buffer (c ∷ []), ltb→lt (length m.cmd_buffer) 1023 e)) v)
  | inr e ↦ rw e (
      send_response-IsValid serial error_text (record m { cmd_buffer = [] })
        (like m (record m { cmd_buffer = [] }) refl (omega arith) v))
]

outcome-Holds :
    (serial : Serial) (before command : List ℕ) (m : Modem) (o : Outcome)
    → process_command serial before command m ≡ o
    → IsValid m
    → Holds (outcome_modem o)
unfolding outcome_modem
outcome-Holds serial before command m (returned (s, m')) e v =
    process_command-IsValid serial before command m s m' v e
outcome-Holds serial before command m undefined e v = tt
outcome-Holds serial before command m out_of_fuel e v = tt

execute-Holds :
    (serial : Serial) (before line : List ℕ) (m : Modem)
    → IsValid m
    → Holds (execute serial before line m)
unfolding execute
execute-Holds serial before [] m v = v
execute-Holds serial before (a ∷ []) m v =
    either-IsValid (to_upper a == b'A') (answer m) _ (answer-IsValid m v)
      (send_response-IsValid serial error_text m v)
execute-Holds serial before (a ∷ t ∷ command) m v =
    elim (Bool-cases (to_upper a == b'A' && to_upper t == b'T')) [
      | inl e ↦ rw e (outcome-Holds serial before command m _ refl v)
      | inr e ↦ rw e (send_response-IsValid serial error_text m v)
    ]

cleared-Holds : (o : Option Modem) → Holds o → Holds (cleared_line o)
unfolding cleared_line
cleared-Holds none h = tt
cleared-Holds (some m) v = like m (record m { cmd_buffer = [] }) refl (omega arith) v

end_line-Holds :
    (serial : Serial) (before : List ℕ) (m : Modem) → IsValid m → Holds (end_line serial before m)
unfolding end_line
end_line-Holds serial before m v = elim (Bool-cases (length m.cmd_buffer == 0)) [
  | inl e ↦ rw e (send_response-IsValid serial ok_text m v)
  | inr e ↦ rw e (
      cleared-Holds (execute serial before m.cmd_buffer m)
        (execute-Holds serial before m.cmd_buffer m v))
]

either-Holds : (b : Bool) (o p : Option Modem) → Holds o → Holds p → Holds (if b then o else p)
either-Holds true o p v w = v
either-Holds false o p v w = w

process_char-Holds :
    (serial : Serial) (before : List ℕ) (c : ℕ) (m : Modem)
    → IsValid m
    → Holds (process_char serial before c m)
unfolding process_char
process_char-Holds serial before c m v =
    let echoed = either-IsValid (c == 0) m (handle_command_echo c m) v (echo-IsValid c m v) in
    elim (Bool-cases (is_backspace c m)) [
      | inl e ↦ rw e (backspace-IsValid _ echoed)
      | inr e ↦ rw e (
          either-Holds (char_is c (m.settings.s_registers cr_char) || c == 10) _ _
            (end_line-Holds serial before _ echoed) (add_char-IsValid serial c _ echoed))
    ]

process_chars-Holds :
    (serial : Serial) (stack : ℕ → List ℕ) (bytes : List ℕ) (o : Option Modem)
    → Holds o
    → Holds (process_chars serial stack bytes o)
unfolding process_chars
process_chars-Holds serial stack bytes none h = tt
process_chars-Holds serial stack [] (some m) v = v
process_chars-Holds serial stack (c ∷ bytes) (some m) v =
    process_chars-Holds serial stack bytes (process_char serial (stack (length bytes)) c m)
      (process_char-Holds serial (stack (length bytes)) c m v)

-- What `modem_process_input` returns, where it is defined.
abbrev Returns : ℕ → Option (ℕ × Modem) → Type 0
Returns len none = Unit
Returns len (some (n, m)) = (n ≤ len) × IsValid m

go_offline-IsValid : (m : Modem) → IsValid m → IsValid (go_offline m)
unfolding go_offline
go_offline-IsValid m v = like m (go_offline m) refl (omega arith) v

escaped-Returns :
    (serial : Serial) (bytes : List ℕ) (now guard e : ℕ) (m : Modem)
    → IsValid m
    → Returns
        (length bytes)
        (escaped serial (length bytes) (some (escape_from now e guard bytes 0 0 m)))
unfolding escaped
escaped-Returns serial bytes now guard e m v =
    let (count, last, (q, l)) = escape_from-counted now e guard bytes 0 0 m (omega arith) in
    let w = subst IsValid (sym q) (like m (counted count last m) refl v.fits v) in
    elim (Bool-cases (escape_from now e guard bytes 0 0 m).0) [
      | inl d ↦
          rw d (omega (arith, l), send_response-IsValid serial ok_text _ (go_offline-IsValid _ w))
      | inr d ↦ rw d (omega arith, w)
    ]

online-Returns :
    (serial : Serial) (now : ℕ) (bytes : List ℕ) (m : Modem)
    → IsValid m
    → Returns (length bytes) (escaped serial (length bytes) (check_escape_sequence now bytes m))
unfolding check_escape_sequence
online-Returns serial now bytes m v = by_guard (get_escape_guard_time m)
  where
    by_guard :
        (o : Option ℕ)
        → Returns (length bytes) (escaped serial (length bytes) (check_within now bytes m o))
    by_guard none = unfold check_within escaped in tt
    by_guard (some guard) =
        unfold check_within in escaped-Returns serial bytes now guard (get_escape_character m) m v

consumed_all-Returns : (len : ℕ) (o : Option Modem) → Holds o → Returns len (consumed_all len o)
unfolding consumed_all
consumed_all-Returns len none h = tt
consumed_all-Returns len (some m) v = (omega arith, v)

process_input-Returns :
    (serial : Serial) (stack : ℕ → List ℕ) (now : ℕ) (bytes : List ℕ) (m : Modem)
    → IsValid m
    → Returns (length bytes) (process_input serial stack now bytes m)
unfolding process_input
process_input-Returns serial stack now bytes m v = by_mode m.online
  where
    by_mode :
        (b : Bool)
        → Returns (length bytes) (
            if b
            then escaped serial (length bytes) (check_escape_sequence now bytes m)
            else consumed_all
                (length bytes)
                (process_chars serial stack (drop (filter_hayes_data bytes true) bytes) (some m)))
    by_mode true = online-Returns serial now bytes m v
    by_mode false =
        consumed_all-Returns (length bytes) _
          (process_chars-Holds serial stack (drop (filter_hayes_data bytes true) bytes) (some m) v)

-- From a modem with settings in range and room in the command buffer, whatever bytes come, in command
-- mode and online, the modem that is left has both again, so no command writes behind the buffer; and
-- no more bytes are consumed than came.
pub process_input-IsValid :
    (serial : Serial) (stack : ℕ → List ℕ) (now : ℕ) (bytes : List ℕ) (m m' : Modem) (n : ℕ)
    → IsValid m
    → process_input serial stack now bytes m ≡ some (n, m')
    → (n ≤ length bytes) × IsValid m'
process_input-IsValid serial stack now bytes m m' n v e =
    subst (Returns (length bytes)) e (process_input-Returns serial stack now bytes m v)
