-- ===== src/Modem/Command/Registers.antt =====
-- Setting and asking for a register by `modem_process_command` of src/modem.c.
use modembridge.Prelude.{
  ℕ, suc, ◌≤◌, ◌<◌, ◌≡◌, refl, ap, ◌∙◌, true, false, List, [], ◌∷◌, ◌++◌, arith, length,
  append_assoc, ap₂, length-append,
}
use modembridge.Modem.State.{Modem, Serial, int_bound, put_sreg, put_register}
use modembridge.Modem.Response.{decimal, send_response, ok_text}
use modembridge.Modem.Command.{
  number, is_digit, upper_from, to_upper, commands, turn, skip_blanks, is_blank, command_step,
  late_command, after_step, register_command, assigned, next, respond, returned, process_command,
}
use modembridge.Modem.Call.{get_sreg, set_sreg}
use modembridge.Modem.Command.Numbers.{
  number-decimal, Plain, digits-Plain, length-digits, copied, Plain-append,
}
use modembridge.Common.{Status}
use modembridge.Modem.Response.Spoken.{
  line, did, send_response_line, send_response_numeral, is_reduced_ok, decimal-IsNumeral,
}

-- The texts of the two commands, without the `AT`.
abbrev pub assignment : ℕ → ℕ → List ℕ
assignment reg v = b'S' ∷ (decimal reg ++ (b'=' ∷ decimal v))

abbrev pub query : ℕ → List ℕ
query reg = b'S' ∷ (decimal reg ++ (b'?' ∷ []))

assignment-Plain : (reg v : ℕ) → Plain (assignment reg v)
unfolding decimal to_upper
assignment-Plain reg v = (
  (refl, refl),
  Plain-append (decimal reg) (b'=' ∷ decimal v) (digits-Plain 10 reg [] tt)
      ((refl, refl), digits-Plain 10 v [] tt),
)

query-Plain : (reg : ℕ) → Plain (query reg)
unfolding decimal to_upper
query-Plain reg = (
  (refl, refl),
  Plain-append (decimal reg) (b'?' ∷ []) (digits-Plain 10 reg [] tt) ((refl, refl), tt),
)

length-decimal : (n : ℕ) → length (decimal n) ≤ 10
unfolding decimal
length-decimal n = omega (arith, length-digits 10 n [])

length-assignment : (reg v : ℕ) → length (assignment reg v) ≤ 22
length-assignment reg v = omega (
  arith,
  length-append {0} (decimal reg) (b'=' ∷ decimal v),
  length-decimal reg,
  length-decimal v,
)

length-query : (reg : ℕ) → length (query reg) ≤ 12
length-query reg = omega (arith, length-append {0} (decimal reg) (b'?' ∷ []), length-decimal reg)

-- The loop at the letter of the register commands, and at the NUL.
at_register :
    (serial : Serial) (fuel : ℕ) (p : List ℕ) (m : Modem)
    → commands serial (suc fuel) (b'S' ∷ p) m
      ≡ after_step serial (commands serial fuel) (register_command serial (number 0 p) m)
unfolding commands turn skip_blanks is_blank command_step late_command
at_register serial fuel p m = refl

at_end :
    (serial : Serial) (fuel : ℕ) (p : List ℕ) (m : Modem)
    → commands serial (suc fuel) (0 ∷ p) m ≡ returned (send_response serial ok_text m)
unfolding commands turn skip_blanks is_blank
at_end serial fuel p m = refl

assignment_step :
    (serial : Serial) (reg v : ℕ) (rest : List ℕ) (m : Modem)
    → reg < int_bound
    → v < int_bound
    → register_command serial (number 0 (decimal reg ++ (b'=' ∷ (decimal v ++ (0 ∷ rest))))) m
      ≡ next (0 ∷ rest) (set_sreg reg v m).1
unfolding register_command assigned is_digit
assignment_step serial reg v rest m h k =
    rw (number-decimal reg b'=' (decimal v ++ (0 ∷ rest)) h refl, number-decimal v 0 rest k refl)
      refl

query_step :
    (serial : Serial) (reg : ℕ) (rest : List ℕ) (m : Modem)
    → reg < int_bound
    → register_command serial (number 0 (decimal reg ++ (b'?' ∷ rest))) m
      ≡ respond ok_text (send_response serial (decimal (get_sreg m reg)) m).1
unfolding register_command is_digit
query_step serial reg rest m h = rw (number-decimal reg b'?' rest h refl) refl

-- `process_command` of a plain command that is not empty and fits.
process-Plain :
    (serial : Serial) (before : List ℕ) (c : ℕ) (command : List ℕ) (m : Modem)
    → Plain (c ∷ command)
    → suc (length command) < length before
    → (rest : List ℕ) × (fuel : ℕ) × (process_command serial before (c ∷ command) m
        ≡ commands serial (suc (suc fuel)) (c ∷ (command ++ (0 ∷ rest))) m)
unfolding process_command upper_from
process-Plain serial [] c command m h l = absurd (omega (arith, l))
process-Plain serial (b ∷ []) c command m h l = absurd (omega (arith, l))
process-Plain serial (b ∷ b' ∷ before) c command m ((u, z), h) l =
    let (rest, e) = copied command before h (omega (arith, l)) in
    (
      rest,
      suc (length before),
      rw z (ap₂ (λ x xs. commands serial (suc (suc (suc (length before)))) (x ∷ xs) m) u e),
    )

pub process_assignment :
    (serial : Serial) (before : List ℕ) (reg v : ℕ) (m : Modem)
    → reg < int_bound
    → v < int_bound
    → 22 < length before
    → process_command serial before (assignment reg v) m
      ≡ returned (send_response serial ok_text (set_sreg reg v m).1)
unfolding after_step
process_assignment serial before reg v m h k l =
    let (rest, fuel, e) =
      process-Plain serial before b'S' (decimal reg ++ (b'=' ∷ decimal v)) m
        (assignment-Plain reg v) (omega (arith, l, length-assignment reg v)) in
    let shape = append_assoc (decimal reg) (b'=' ∷ decimal v) (0 ∷ rest) in
    e
    ∙ (ap (λ t. commands serial (suc (suc fuel)) (b'S' ∷ t) m) shape
        ∙ (at_register serial (suc fuel) _ m
            ∙ (ap (after_step serial (commands serial (suc fuel)))
                  (assignment_step serial reg v rest m h k)
                ∙ at_end serial fuel rest (set_sreg reg v m).1)))

process_query :
    (serial : Serial) (before : List ℕ) (reg : ℕ) (m : Modem)
    → reg < int_bound
    → 22 < length before
    → process_command serial before (query reg) m
      ≡ returned
          (send_response serial ok_text (send_response serial (decimal (get_sreg m reg)) m).1)
unfolding after_step
process_query serial before reg m h l =
    let (rest, fuel, e) =
      process-Plain serial before b'S' (decimal reg ++ (b'?' ∷ [])) m (query-Plain reg)
        (omega (arith, l, length-query reg)) in
    let shape = append_assoc (decimal reg) (b'?' ∷ []) (0 ∷ rest) in
    e
    ∙ (ap (λ t. commands serial (suc (suc fuel)) (b'S' ∷ t) m) shape
        ∙ (at_register serial (suc fuel) _ m
            ∙ ap (after_step serial (commands serial (suc fuel)))
                (query_step serial reg (0 ∷ rest) m h)))

get_sreg_set : (reg v : ℕ) (m : Modem) → reg ≤ 255 → get_sreg (set_sreg reg v m).1 reg ≡ v
unfolding get_sreg set_sreg put_sreg put_register
get_sreg_set reg v m h = ground (arith, h)

set_sreg_speaks :
    (reg v : ℕ) (m : Modem)
    → let m' = (set_sreg reg v m).1 in
      (m'.settings.quiet ≡ m.settings.quiet)
      × (m'.settings.verbose ≡ m.settings.verbose)
      × (m'.actions ≡ m.actions)
unfolding set_sreg put_sreg
set_sreg_speaks reg v m = ground arith

says_ok :
    (serial : Serial) (m : Modem)
    → m.settings.quiet ≡ false
    → m.settings.verbose ≡ true
    → (send_response serial ok_text m).1 ≡ did (line (b'O' ∷ b'K' ∷ [])) m
says_ok serial m q v =
    send_response_line serial b'O' (b'K' ∷ []) m q v (is_reduced_ok m.settings.result_mode)
      (omega arith)

-- A register up to 255 that one command line sets to an `int` that is not negative is read back by a
-- later one that asks for it, for a modem that speaks in words: the first line writes `OK` on the
-- serial port, and the second writes the number that was set, in decimal without leading zeros, and
-- then `OK`, each between line ends. The array of the command, whatever it held, has the length of
-- 1,024 bytes of the source or at least 23.
pub process_command_registers :
    (serial : Serial) (before before' : List ℕ) (reg v : ℕ) (m : Modem)
    → reg ≤ 255
    → v < int_bound
    → 22 < length before
    → 22 < length before'
    → m.settings.quiet ≡ false
    → m.settings.verbose ≡ true
    → let ok = line (b'O' ∷ b'K' ∷ []) in
      (status status' : Status) × (m' m'' : Modem) × (process_command serial before
          (assignment reg v)
          m
        ≡ returned (status, m'))
      × (process_command serial before' (query reg) m' ≡ returned (status', m''))
      × (m'.actions ≡ ok ∷ m.actions)
      × (m''.actions ≡ ok ∷ line (decimal v) ∷ m'.actions)
process_command_registers serial before before' reg v m h k l l' q s =
    let changed = (set_sreg reg v m).1 in
    let speaks = set_sreg_speaks reg v m in
    let quiet = speaks.0 ∙ q in
    let verbose = speaks.1 ∙ s in
    let ok = line (b'O' ∷ b'K' ∷ []) in
    let m' = did ok changed in
    let back : get_sreg m' reg ≡ v = unfold get_sreg in get_sreg_set reg v m h in
    let asked = did (line (decimal v)) m' in
    let first = send_response serial ok_text changed in
    let second = send_response serial ok_text asked in
    (
      first.0,
      second.0,
      m',
      did ok asked,
      process_assignment serial before reg v m (omega arith) k l
          ∙ ap (λ t. returned (first.0, t)) (says_ok serial changed quiet verbose),
      process_query serial before' reg m' (omega arith) l'
          ∙ ap
              (λ n. returned (send_response serial ok_text (send_response serial (decimal n) m').1))
              back
          ∙ ap (λ t. returned (send_response serial ok_text t))
              (send_response_numeral serial (decimal v) m' quiet verbose (decimal-IsNumeral v)
                (omega (arith, length-decimal v)))
          ∙ ap (λ t. returned (second.0, t)) (says_ok serial asked quiet verbose),
      ap (λ log. ok ∷ log) speaks.2,
      refl,
    )
