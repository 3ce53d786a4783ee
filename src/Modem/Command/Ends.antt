-- ===== src/Modem/Command/Ends.antt =====
-- How a command line of `modem_process_command` of src/modem.c ends.
use modembridge.Prelude.{
  ℕ, zero, suc, ◌≤◌, ◌<◌, ◌≡◌, ◌≢◌, refl, subst, true, Option, none, some, List, [], ◌∷◌, arith,
  length, Bool-cases, inl, inr, ◌==◌,
}
use modembridge.Modem.State.{Modem, Serial}
use modembridge.Modem.Response.{send_response, ok_text}
use modembridge.Modem.Command.{
  Step, next, respond, undefined_step, Outcome, returned, undefined, out_of_fuel, upper_from,
  skip_blanks, command_step, after_step, turn, commands, process_command,
}
use modembridge.Modem.Command.Leads.{Leads, Closed, is_final, ok_final, skip_blanks-Leaves}
use modembridge.Modem.Command.Steps.{command_step-Leads}

-- A line ends in a modem of which the predicate is true, by a response that ends a line.
abbrev pub Ends : Serial → (Modem → Type 0) → Outcome → Type 0
Ends serial R (returned r) =
    (m : Modem) × (text : List ℕ) × (R m
      × (is_final text ≡ true)
      × (r ≡ send_response serial text m))
Ends serial R undefined = Unit
Ends serial R out_of_fuel = ⊥

module _ (R : Modem → Type 0) (serial : Serial) (c : Closed R serial) where
  after_step-Ends :
      (n : ℕ) (loop : List ℕ → Modem → Outcome) (step : Step)
      → ((p : List ℕ) (m : Modem) → length p ≤ n → R m → Ends serial R (loop p m))
      → Leads n R step
      → Ends serial R (after_step serial loop step)
  unfolding after_step
  after_step-Ends n loop (next p m) ih (h, r) = ih p m h r
  after_step-Ends n loop (respond text m) ih (r, f) = (m, text, (r, f, refl))
  after_step-Ends n loop undefined_step ih l = tt

  turn-Ends :
      (n : ℕ) (loop : List ℕ → Modem → Outcome) (o : Option (List ℕ)) (m : Modem)
      → ((p : List ℕ) (m : Modem) → length p < n → R m → Ends serial R (loop p m))
      → ((p : List ℕ) → o ≡ some p → length p ≤ n)
      → R m
      → Ends serial R (turn serial loop o m)
  unfolding turn
  turn-Ends n loop none m ih h r = tt
  turn-Ends n loop (some []) m ih h r = tt
  turn-Ends n loop (some (x ∷ p)) m ih h r = elim (Bool-cases (x == 0)) [
    | inl e ↦ rw e (m, ok_text, (r, ok_final, refl))
    | inr e ↦ rw e (
        after_step-Ends (length p) loop (command_step serial x p m)
          (λ q m' l. ih q m' (omega (arith, h (x ∷ p) refl, l)))
          (command_step-Leads R serial c m r x p))
  ]

  pub commands-Ends :
      (fuel : ℕ) (p : List ℕ) (m : Modem)
      → length p < fuel
      → R m
      → Ends serial R (commands serial fuel p m)
  unfolding commands
  commands-Ends zero p m h r = absurd (omega (arith, h))
  commands-Ends (suc fuel) p m h r =
      turn-Ends (length p) (commands serial fuel) (skip_blanks p) m
        (λ q m' l r'. commands-Ends fuel q m' (omega (arith, h, l)) r')
        (λ q e. skip_blanks-Leaves (length p) p q (omega arith) e) r

length-upper_from : (command before : List ℕ) → length (upper_from command before) ≤ length before
unfolding upper_from
length-upper_from [] before = omega arith
length-upper_from (x ∷ command) [] = omega arith
length-upper_from (x ∷ command) (b ∷ []) = omega arith
length-upper_from (x ∷ command) (b ∷ b' ∷ before) =
    ground (arith, length-upper_from command (0 ∷ before))

pub process_command-Ends :
    (R : Modem → Type 0) (serial : Serial) (before command : List ℕ) (m : Modem)
    → Closed R serial
    → R m
    → Ends serial R (process_command serial before command m)
unfolding process_command
process_command-Ends R serial before command m c r =
    let short = length-upper_from command before in
    commands-Ends R serial c (suc (length before)) (upper_from command before) m
      (omega (arith, short)) r

-- Every modem.
abbrev pub Any : Modem → Type 0
Any m = Unit

pub Any-Closed : (serial : Serial) → Closed Any serial
Any-Closed serial = record {
  at_bell_mode = λ m v h r. tt;
  at_speaker_volume = λ m v h r. tt;
  at_speaker_control = λ m v h r. tt;
  at_result_mode = λ m v h r. tt;
  at_dcd_mode = λ m v h r. tt;
  at_dtr_mode = λ m v h r. tt;
  at_dsr_mode = λ m v h r. tt;
  at_error_correction = λ m v h r. tt;
  at_saved = λ m v h r. tt;
  at_echo = λ m on r. tt;
  at_quiet = λ m on r. tt;
  at_verbose = λ m on r. tt;
  at_sreg = λ m reg v h r. tt;
  at_reset = λ m r. tt;
  at_answer = λ m r. tt;
  at_online = λ m e r. tt;
  at_hangup = λ m r. tt;
  at_send = λ m text r. tt;
}

-- Whatever the command line holds, and whatever the array held before, the loop over the commands
-- never runs out of the fuel of one turn for each byte of the array and one more.
pub process_command_terminates :
    (serial : Serial) (before command : List ℕ) (m : Modem)
    → process_command serial before command m ≢ out_of_fuel
process_command_terminates serial before command m e =
    subst (Ends serial Any) e
      (process_command-Ends Any serial before command m (Any-Closed serial) tt)
