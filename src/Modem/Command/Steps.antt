-- ===== src/Modem/Command/Steps.antt =====
-- What one command of `modem_process_command` of src/modem.c leaves to read, and what it keeps true
-- of the modem.
use modembridge.Prelude.{
  ℕ, suc, ◌<◌, refl, Option, none, some, List, [], ◌∷◌, arith, length, Bool-cases, inl, inr, ◌==◌,
}
use modembridge.Modem.State.{Modem, Serial, reset, int_bound}
use modembridge.Modem.Response.{
  send_response, ok_text, connect_text, no_carrier_text, decimal, same,
}
use modembridge.Modem.Call.{
  get_sreg, go_online, send_lines, hangup, show_configuration, configuration_lines,
}
use modembridge.Modem.Command.{
  next, respond, digit, number, dialed, skip_dial, answer_command, online_command, assigned,
  register_command, and_command, backslash_command, command_step, saved, version_text, late_command,
}
use modembridge.Modem.Command.Leads.{
  is_final, ok_final, Leads, Leaves, either-Leads, guarded-Leads, digit-Leaves, number-Leaves,
  Closed, ranged-Leads, switched-Leads, ignoring-Leads,
}

module _ (R : Modem → Type 0) (serial : Serial) (c : Closed R serial) (m : Modem) (r : R m) where
  send_lines-Closed : (lines : List (List ℕ)) (m' : Modem) → R m' → R (send_lines serial lines m')
  unfolding send_lines
  send_lines-Closed [] m' r' = r'
  send_lines-Closed (line ∷ lines) m' r' =
      send_lines-Closed lines (send_response serial line m').1 (c.at_send m' line r')

  show_configuration-Closed : R (show_configuration serial m)
  unfolding show_configuration
  show_configuration-Closed = send_lines-Closed (configuration_lines m.settings) m r

  answer_command-Leads : (p : List ℕ) → Leads (length p) R (answer_command p m)
  unfolding answer_command
  answer_command-Leads [] = tt
  answer_command-Leads (x ∷ p) = elim (Bool-cases (x == b'T')) [
    | inl e ↦ rw e (omega arith, r)
    | inr e ↦ rw e (omega arith, c.at_answer m r)
  ]

  online_command-Leads : (n : ℕ) → Leads n R (online_command m)
  unfolding online_command is_final same
  online_command-Leads n =
      guarded-Leads n R m.carrier (respond connect_text (go_online m)) (respond no_carrier_text m)
        (λ e. (c.at_online m e r, refl)) (r, refl)

  dialed-Leads : (n : ℕ) (o : Option (List ℕ)) → Leads n R (dialed o m)
  unfolding dialed
  dialed-Leads n none = tt
  dialed-Leads n (some p) = (r, ok_final)

  assigned-Leads :
      (n reg : ℕ) (o : Option (ℕ × List ℕ)) → Leaves n int_bound o → Leads n R (assigned reg o m)
  unfolding assigned
  assigned-Leads n reg none h = tt
  assigned-Leads n reg (some (v, p)) (h, b) = (h, c.at_sreg m reg v b r)

  register_command-Leads :
      (n : ℕ) (o : Option (ℕ × List ℕ))
      → Leaves n int_bound o
      → Leads n R (register_command serial o m)
  unfolding register_command
  register_command-Leads n none h = tt
  register_command-Leads n (some (reg, [])) h = tt
  register_command-Leads n (some (reg, x ∷ p)) (h, b) =
      either-Leads n R (x == b'=') (assigned reg (number 0 p) m) _
        (assigned-Leads n reg (number 0 p) (number-Leaves n 0 p (omega arith) (omega arith)))
        (either-Leads n R (x == b'?')
          (respond ok_text (send_response serial (decimal (get_sreg m reg)) m).1) (next (x ∷ p) m)
          (c.at_send m (decimal (get_sreg m reg)) r, ok_final) (h, r))

  and_command-Leads : (p : List ℕ) → Leads (length p) R (and_command serial p m)
  unfolding and_command
  and_command-Leads [] = tt
  and_command-Leads (x ∷ p) =
      let n = suc (length p) in
      let with_digit = λ (d : ℕ) (h : d < 10). digit-Leaves n d p (omega arith) h in
      either-Leads n R (x == b'C') _ _
        (ranged-Leads R n (digit 1 p) 1 (λ v s. record s { dcd_mode = v }) m
          (with_digit 1 (omega arith)) r (λ v h. c.at_dcd_mode m v h r))
        (either-Leads n R (x == b'D') _ _
          (ranged-Leads R n (digit 2 p) 3 (λ v s. record s { dtr_mode = v }) m
            (with_digit 2 (omega arith)) r (λ v h. c.at_dtr_mode m v h r))
          (either-Leads n R (x == b'F') _ _ (omega arith, c.at_reset m r)
            (either-Leads n R (x == b'V') _ _ (show_configuration-Closed, ok_final)
              (either-Leads n R (x == b'W') _ _
                (ranged-Leads R n (digit 0 p) 1 saved m (with_digit 0 (omega arith)) r
                  (λ v h. c.at_saved m v h r))
                (either-Leads n R (x == b'S') _ _
                  (ranged-Leads R n (digit 0 p) 1 (λ v s. record s { dsr_mode = v }) m
                    (with_digit 0 (omega arith)) r (λ v h. c.at_dsr_mode m v h r))
                  (ignoring-Leads R n (digit 0 p) (λ q. next q m) (with_digit 0 (omega arith))
                    (λ q h. (h, r))))))))

  backslash_command-Leads : (p : List ℕ) → Leads (length p) R (backslash_command p m)
  unfolding backslash_command
  backslash_command-Leads [] = tt
  backslash_command-Leads (x ∷ p) =
      let n = suc (length p) in
      either-Leads n R (x == b'N') _ _
        (ranged-Leads R n (digit 3 p) 3 (λ v s. record s { error_correction = v }) m
          (digit-Leaves n 3 p (omega arith) (omega arith)) r (λ v h. c.at_error_correction m v h r))
        (ignoring-Leads R n (digit 0 p) (λ q. next q m)
          (digit-Leaves n 0 p (omega arith) (omega arith)) (λ q h. (h, r)))

  late_command-Leads : (x : ℕ) (p : List ℕ) → Leads (length p) R (late_command serial x p m)
  unfolding late_command
  late_command-Leads x p =
      let n = length p in
      let digits_left = λ (d : ℕ) (h : d < 10). digit-Leaves n d p (omega arith) h in
      let both = either-Leads n R in
      both (x == b'O') _ _
        (ignoring-Leads R n (digit 0 p) (λ q. online_command m) (digits_left 0 (omega arith))
          (λ q h. online_command-Leads n))
        (both (x == b'Q') _ _
          (switched-Leads R n (digit 0 p) (λ on s. record s { quiet = on }) m
            (digits_left 0 (omega arith)) (λ on. c.at_quiet m on r))
          (both (x == b'S') _ _
            (register_command-Leads n (number 0 p)
              (number-Leaves n 0 p (omega arith) (omega arith)))
            (both (x == b'V') _ _
              (switched-Leads R n (digit 1 p) (λ on s. record s { verbose = on }) m
                (digits_left 1 (omega arith)) (λ on. c.at_verbose m on r))
              (both (x == b'X') _ _
                (ranged-Leads R n (digit 4 p) 4 (λ v s. record s { result_mode = v }) m
                  (digits_left 4 (omega arith)) r (λ v h. c.at_result_mode m v h r))
                (both (x == b'Z') _ _
                  (ignoring-Leads R n (digit 0 p) (λ q. respond ok_text (reset m))
                    (digits_left 0 (omega arith)) (λ q h. (c.at_reset m r, ok_final)))
                  (both (x == b'&') _ _ (and_command-Leads p)
                    (both (x == b'\\') _ _ (backslash_command-Leads p) (omega arith, r))))))))

  -- One command leaves no more to read than what follows its letter, and keeps the predicate.
  pub command_step-Leads : (x : ℕ) (p : List ℕ) → Leads (length p) R (command_step serial x p m)
  unfolding command_step
  command_step-Leads x p =
      let n = length p in
      let digits_left = λ (d : ℕ) (h : d < 10). digit-Leaves n d p (omega arith) h in
      let both = either-Leads n R in
      both (x == b'A') _ _ (answer_command-Leads p) (
        both (x == b'B') _ _
          (ranged-Leads R n (digit 0 p) 1 (λ v s. record s { bell_mode = v }) m
            (digits_left 0 (omega arith)) r (λ v h. c.at_bell_mode m v h r))
          (both (x == b'D') _ _ (dialed-Leads n (skip_dial p)) (
            both (x == b'E') _ _
              (switched-Leads R n (digit 1 p) (λ on s. record s { echo = on }) m
                (digits_left 1 (omega arith)) (λ on. c.at_echo m on r))
              (both (x == b'H') _ _
                (ignoring-Leads R n (digit 0 p) (λ q. respond ok_text (hangup serial m))
                  (digits_left 0 (omega arith)) (λ q h. (c.at_hangup m r, ok_final)))
                (both (x == b'I') _ _
                  (ignoring-Leads R n (digit 0 p)
                    (λ q. respond ok_text (send_response serial version_text m).1)
                    (digits_left 0 (omega arith)) (λ q h. (c.at_send m version_text r, ok_final)))
                  (both (x == b'L') _ _
                    (ranged-Leads R n (digit 2 p) 3 (λ v s. record s { speaker_volume = v }) m
                      (digits_left 2 (omega arith)) r (λ v h. c.at_speaker_volume m v h r))
                    (both (x == b'M') _ _
                      (ranged-Leads R n (digit 1 p) 3 (λ v s. record s { speaker_control = v }) m
                        (digits_left 1 (omega arith)) r (λ v h. c.at_speaker_control m v h r))
                      (late_command-Leads x p))))))))
