-- ===== src/Modem/Command/Bounds.antt =====
-- The ranges of the settings of src/modem.c.
use modembridge.Prelude.{
  ℕ, ◌≤◌, ◌<◌, ◌≡◌, arith, Option, some, none, List, [], ◌∷◌, length, subst, sym, refl, ◌++◌, Bool,
  true, false, leb, Bool-cases, inl, inr, ap,
}
use modembridge.Modem.State.{
  Modem, Settings, Serial, int_bound, default_registers, put_register, put_sreg, reset, Action,
  write, ModemState, connecting, disconnected, online_mode, ring_count, set_dtr, set_rts,
}
use modembridge.Modem.Response.{
  filter_result_code, send_filtered, send_response, serial_write, framed,
}
use modembridge.Modem.Call.{set_sreg, go_online, answer, hangup, hangup_actions}
use modembridge.Modem.Command.{with_settings, saved, process_command, returned}
use modembridge.Modem.Command.Leads.{Closed}
use modembridge.Modem.Command.Ends.{Ends, process_command-Ends}
use modembridge.Common.{Status}

-- The settings are in the ranges of include/modem.h.
pub record InRange (s : Settings) : Type 0 where
  pub dcd_mode_le : s.dcd_mode ≤ 1
  pub dtr_mode_le : s.dtr_mode ≤ 3
  pub bell_mode_le : s.bell_mode ≤ 1
  pub result_mode_le : s.result_mode ≤ 4
  pub speaker_volume_le : s.speaker_volume ≤ 3
  pub speaker_control_le : s.speaker_control ≤ 3
  pub error_correction_le : s.error_correction ≤ 3
  pub dsr_mode_le : s.dsr_mode ≤ 1

-- The settings are in range, the registers hold an `int` that is not negative, and the command
-- buffer has room for the NUL.
pub record IsValid (m : Modem) : Type 0 where
  pub in_range : InRange m.settings
  pub registers_lt : (i : ℕ) → m.settings.s_registers i < int_bound
  pub fits : length m.cmd_buffer ≤ 1023

default_lt : (i : ℕ) → default_registers i < int_bound
unfolding default_registers
default_lt i = ground arith

put_lt :
    (reg value : ℕ) (registers : ℕ → ℕ) (i : ℕ)
    → ((j : ℕ) → registers j < int_bound)
    → value < int_bound
    → put_register reg value registers i < int_bound
unfolding put_register
put_lt reg value registers i h v = ground (arith, h i)

-- Settings with the registers as they were.
range_kept :
    (change : Settings → Settings) (m : Modem)
    → InRange (change m.settings)
    → (change m.settings).s_registers ≡ m.settings.s_registers
    → IsValid m
    → IsValid (with_settings change m)
unfolding with_settings
range_kept change m h e v = record {
  in_range = h;
  registers_lt = λ i. subst (λ (f : ℕ → ℕ). f i < int_bound) (sym e) (v.registers_lt i);
  fits = v.fits;
}

put_sreg-IsValid :
    (reg value : ℕ) (m : Modem) → IsValid m → value < int_bound → IsValid (put_sreg reg value m)
unfolding put_sreg
put_sreg-IsValid reg value m v h = record {
  in_range = ground (arith, v.in_range);
  registers_lt = λ i. put_lt reg value m.settings.s_registers i v.registers_lt h;
  fits = v.fits;
}

-- Only the calls of the serial port differ.
unfoldable pub acted : Modem → List Action → Modem
acted m log = record m { actions = log }

acted-IsValid : (m : Modem) (log : List Action) → IsValid m → IsValid (acted m log)
unfolding acted
acted-IsValid m log v = record {
  in_range = ground (arith, v.in_range);
  registers_lt = v.registers_lt;
  fits = v.fits;
}

send_filtered-acted :
    (serial : Serial) (o : Option (List ℕ)) (m : Modem)
    → (log : List Action) × ((send_filtered serial o m).1 ≡ acted m log)
unfolding send_filtered serial_write acted
send_filtered-acted serial none m = (m.actions, refl)
send_filtered-acted serial (some []) m = (m.actions, refl)
send_filtered-acted serial (some (c ∷ text)) m = (write (framed (c ∷ text)) ∷ m.actions, refl)

-- A response changes nothing but the calls of the serial port.
pub send_response-acted :
    (serial : Serial) (text : List ℕ) (m : Modem)
    → (log : List Action) × ((send_response serial text m).1 ≡ acted m log)
unfolding send_response
send_response-acted serial text m =
    send_filtered-acted serial (filter_result_code m.settings text 256) m

pub send_response-IsValid :
    (serial : Serial) (text : List ℕ) (m : Modem)
    → IsValid m
    → IsValid (send_response serial text m).1
send_response-IsValid serial text m v =
    let (log, e) = send_response-acted serial text m in
    subst IsValid (sym e) (acted-IsValid m log v)

pub reset-IsValid : (m : Modem) → IsValid (reset m)
unfolding reset
reset-IsValid m = record { in_range = ground arith; registers_lt = default_lt; fits = omega arith }

-- Fields that the ranges are not about.
mode_set :
    (m : Modem) (state : ModemState) (online carrier : Bool) (count last : ℕ) (log : List Action)
    → IsValid m
    → IsValid (record m {
      state = state;
      online = online;
      carrier = carrier;
      escape_count = count;
      last_escape_time = last;
      actions = log;
    })
mode_set m state online carrier count last log v = record {
  in_range = ground (arith, v.in_range);
  registers_lt = v.registers_lt;
  fits = v.fits;
}

pub answer-IsValid : (m : Modem) → IsValid m → IsValid (answer m)
unfolding answer
answer-IsValid m v =
    put_sreg-IsValid ring_count 0 (record m { state = connecting })
      (mode_set m connecting m.online m.carrier m.escape_count m.last_escape_time m.actions v)
      (omega arith)

hangup-IsValid : (serial : Serial) (m : Modem) → IsValid m → IsValid (hangup serial m)
unfolding hangup
hangup-IsValid serial m v =
    let quiet =
      put_sreg-IsValid ring_count 0
        (record m { state = disconnected; online = false; carrier = false })
        (mode_set m disconnected false false m.escape_count m.last_escape_time m.actions v)
        (omega arith) in
    elim (Bool-cases (serial.is_open m.actions)) [
      | inl e ↦ rw e (unfold acted in acted-IsValid _ (hangup_actions ++ m.actions) quiet)
      | inr e ↦ rw e quiet
    ]

set_sreg-IsValid :
    (reg value : ℕ) (m : Modem) → value < int_bound → IsValid m → IsValid (set_sreg reg value m).1
unfolding set_sreg
set_sreg-IsValid reg value m h v = elim (Bool-cases (leb reg 255)) [
  | inl e ↦ rw e (put_sreg-IsValid reg value m v h)
  | inr e ↦ rw e v
]

saved-InRange : (profile : ℕ) (s : Settings) → InRange s → InRange (saved profile s)
unfolding saved
saved-InRange profile s v = ground (arith, v)

saved_registers : (profile : ℕ) (s : Settings) → (saved profile s).s_registers ≡ s.s_registers
unfolding saved
saved_registers profile s = refl

IsValid-Closed : (serial : Serial) → Closed IsValid serial
IsValid-Closed serial = record {
  at_bell_mode =
      λ m v h r. range_kept (λ s. record s { bell_mode = v }) m (ground (arith, r.in_range)) refl r;
  at_speaker_volume = λ m v h r.
      range_kept (λ s. record s { speaker_volume = v }) m (ground (arith, r.in_range)) refl r;
  at_speaker_control = λ m v h r.
      range_kept (λ s. record s { speaker_control = v }) m (ground (arith, r.in_range)) refl r;
  at_result_mode = λ m v h r.
      range_kept (λ s. record s { result_mode = v }) m (ground (arith, r.in_range)) refl r;
  at_dcd_mode =
      λ m v h r. range_kept (λ s. record s { dcd_mode = v }) m (ground (arith, r.in_range)) refl r;
  at_dtr_mode =
      λ m v h r. range_kept (λ s. record s { dtr_mode = v }) m (ground (arith, r.in_range)) refl r;
  at_dsr_mode =
      λ m v h r. range_kept (λ s. record s { dsr_mode = v }) m (ground (arith, r.in_range)) refl r;
  at_error_correction = λ m v h r.
      range_kept (λ s. record s { error_correction = v }) m (ground (arith, r.in_range)) refl r;
  at_saved = λ m v h r.
      range_kept (saved v) m (saved-InRange v m.settings r.in_range) (saved_registers v m.settings)
        r;
  at_echo =
      λ m on r. range_kept (λ s. record s { echo = on }) m (ground (arith, r.in_range)) refl r;
  at_quiet =
      λ m on r. range_kept (λ s. record s { quiet = on }) m (ground (arith, r.in_range)) refl r;
  at_verbose =
      λ m on r. range_kept (λ s. record s { verbose = on }) m (ground (arith, r.in_range)) refl r;
  at_sreg = λ m reg v h r. set_sreg-IsValid reg v m h r;
  at_reset = λ m r. reset-IsValid m;
  at_answer = λ m r. answer-IsValid m r;
  at_online = λ m e r.
      unfold go_online in
      mode_set m online_mode true true 0 0 (set_rts true ∷ set_dtr true ∷ m.actions) r;
  at_hangup = λ m r. hangup-IsValid serial m r;
  at_send = λ m text r. send_response-IsValid serial text m r;
}

-- A command line that ends leaves the settings in range, whatever it asks for.
pub process_command-IsValid :
    (serial : Serial) (before command : List ℕ) (m : Modem) (status : Status) (m' : Modem)
    → IsValid m
    → process_command serial before command m ≡ returned (status, m')
    → IsValid m'
process_command-IsValid serial before command m status m' v e =
    let (m'', text, (w, _, q)) =
      subst (Ends serial IsValid) e
        (process_command-Ends IsValid serial before command m (IsValid-Closed serial) v) in
    subst IsValid (sym (ap (λ (r : Status × Modem). r.1) q))
      (send_response-IsValid serial text m'' w)
