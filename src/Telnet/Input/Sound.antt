-- ===== src/Telnet/Input/Sound.antt =====
-- What `telnet_process_input` of src/telnet.c keeps true of the client, whatever the server sends.
use modembridge.Prelude.{
  ℕ, ◌≤◌, ◌≡◌, sym, subst, List, [], ◌∷◌, arith, length, length-append, ◌==◌, Bool-cases, inl, inr,
  ◌⊎◌,
}
use modembridge.Common.{buffer_size}
use modembridge.Telnet.State.{
  TelnetState, data_state, iac_state, will_state, wont_state, do_state, dont_state, sb_state,
  sb_iac_state, Os, Telnet,
}
use modembridge.Telnet.Negotiate.{handle_negotiate}
use modembridge.Telnet.Negotiate.Modes.{
  ModesAgree, handle_negotiate-ModesAgree, sb_buffer-handle_negotiate,
}
use modembridge.Telnet.Subnegotiate.{handle_subnegotiation}
use modembridge.Telnet.Subnegotiate.Modes.{handle_subnegotiation-ModesAgree}
use modembridge.Telnet.Send.{send}
use modembridge.Telnet.Input.{
  in_state, here, iac_command, accumulate, sb_command, step, process_from, process_input,
}
use modembridge.Telnet.Byte

-- The parts of the client that the modes are about.
abbrev patched : Telnet → TelnetState → List ℕ → List (List ℕ) → ℕ → Telnet
patched tn s buf log activity = record tn {
  state = s;
  sb_buffer = buf;
  requests = log;
  last_activity = activity;
}

patched-ModesAgree :
    (tn : Telnet) (s : TelnetState) (buf : List ℕ) (log : List (List ℕ)) (activity : ℕ)
    → ModesAgree tn
    → ModesAgree (patched tn s buf log activity)
patched-ModesAgree tn s buf log activity m = record {
  flags = record {
    binary_remote_is = m.flags.binary_remote_is;
    sga_remote_is = m.flags.sga_remote_is;
    echo_remote_is = m.flags.echo_remote_is;
    linemode_active_is = m.flags.linemode_active_is;
    binary_local_needs = m.flags.binary_local_needs;
    sga_local_needs = m.flags.sga_local_needs;
    remote_known = m.flags.remote_known;
    local_known = m.flags.local_known;
  };
  binary_mode_is = m.binary_mode_is;
  sga_mode_is = m.sga_mode_is;
  echo_mode_is = m.echo_mode_is;
  linemode_is = m.linemode_is;
}

send_lem :
    (os : Os) (tn : Telnet) (payload : List ℕ)
    → let t = (send os tn payload).1 in
      t ≡ patched tn tn.state tn.sb_buffer t.requests t.last_activity
unfolding send
send_lem os tn payload = ground arith

iac_command_lem :
    (os : Os) (tn : Telnet) (c : ℕ)
    → let t = iac_command os tn c in
      (t ≡ patched tn t.state t.sb_buffer t.requests t.last_activity)
      × ((t.sb_buffer ≡ tn.sb_buffer) ⊎ (t.sb_buffer ≡ []))
unfolding iac_command
iac_command_lem os tn c = (ground (arith, send_lem os tn here), ground (arith, send_lem os tn here))

-- What every call leaves true of the client.
pub record IsSound (tn : Telnet) : Type 0 where
  pub modes : ModesAgree tn
  pub sb_in : length tn.sb_buffer ≤ buffer_size

patched-IsSound :
    (tn : Telnet) (s : TelnetState) (buf : List ℕ) (log : List (List ℕ)) (activity : ℕ)
    → ModesAgree tn
    → length buf ≤ buffer_size
    → IsSound (patched tn s buf log activity)
patched-IsSound tn s buf log activity m h = record {
  modes = patched-ModesAgree tn s buf log activity m;
  sb_in = h;
}

iac_command-IsSound : (os : Os) (tn : Telnet) (c : ℕ) → IsSound tn → IsSound (iac_command os tn c)
iac_command-IsSound os tn c h =
    let (e, buf) = iac_command_lem os tn c in
    let t = iac_command os tn c in
    let short : length t.sb_buffer ≤ buffer_size = elim buf [
      | inl same ↦ rw same h.sb_in
      | inr none_left ↦ rw none_left (omega arith)
    ] in
    rw e (patched-IsSound tn t.state t.sb_buffer t.requests t.last_activity h.modes short)

accumulate_lem :
    (tn : Telnet) (c : ℕ) (s : TelnetState)
    → let t = accumulate tn c in
      (in_state t s ≡ patched tn s t.sb_buffer tn.requests tn.last_activity)
      × (length tn.sb_buffer ≤ buffer_size → length t.sb_buffer ≤ buffer_size)
unfolding accumulate
accumulate_lem tn c s = (ground arith, λ h. ground (arith, length-append tn.sb_buffer (c ∷ [])))

accumulate-IsSound :
    (tn : Telnet) (c : ℕ) (s : TelnetState) → IsSound tn → IsSound (in_state (accumulate tn c) s)
accumulate-IsSound tn c s h =
    let (e, short) = accumulate_lem tn c s in
    rw e (patched-IsSound tn s _ tn.requests tn.last_activity h.modes (short h.sb_in))

sb_command-IsSound : (os : Os) (tn : Telnet) (c : ℕ) → IsSound tn → IsSound (sb_command os tn c)
unfolding sb_command
sb_command-IsSound os tn c h = elim (Bool-cases (c == Byte.se)) [
  | inl e ↦ rw e (
      let t = (handle_subnegotiation os tn).1 in
      patched-IsSound t data_state [] t.requests t.last_activity
        (handle_subnegotiation-ModesAgree os tn h.modes) (omega arith))
  | inr e ↦ rw e (elim (Bool-cases (c == Byte.iac)) [
    | inl e' ↦ rw e' (accumulate-IsSound tn Byte.iac sb_state h)
    | inr e' ↦ rw e' (accumulate-IsSound tn c sb_state h)
  ])
]

accumulate_same : (tn : Telnet) (c : ℕ) → accumulate tn c ≡ in_state (accumulate tn c) tn.state
unfolding accumulate
accumulate_same tn c = ground arith

negotiate-IsSound :
    (os : Os) (tn : Telnet) (command c : ℕ)
    → IsSound tn
    → IsSound (in_state (handle_negotiate os tn command c) data_state)
negotiate-IsSound os tn command c h =
    let t = handle_negotiate os tn command c in
    patched-IsSound t data_state t.sb_buffer t.requests t.last_activity
      (handle_negotiate-ModesAgree os tn command c h.modes)
      (rw (sb_buffer-handle_negotiate os tn command c) h.sb_in)

in_state-IsSound : (tn : Telnet) (s : TelnetState) → IsSound tn → IsSound (in_state tn s)
in_state-IsSound tn s h =
    patched-IsSound tn s tn.sb_buffer tn.requests tn.last_activity h.modes h.sb_in

step-IsSound :
    (os : Os) (s : TelnetState) (tn : Telnet) (c : ℕ) → IsSound tn → IsSound (step os s tn c)
unfolding step
step-IsSound os data_state tn c h = elim (Bool-cases (c == Byte.iac)) [
  | inl e ↦ rw e (in_state-IsSound tn iac_state h)
  | inr e ↦ rw e h
]
step-IsSound os iac_state tn c h = iac_command-IsSound os tn c h
step-IsSound os will_state tn c h = negotiate-IsSound os tn Byte.will c h
step-IsSound os wont_state tn c h = negotiate-IsSound os tn Byte.wont c h
step-IsSound os do_state tn c h = negotiate-IsSound os tn Byte.do_it c h
step-IsSound os dont_state tn c h = negotiate-IsSound os tn Byte.dont c h
step-IsSound os sb_state tn c h = elim (Bool-cases (c == Byte.iac)) [
  | inl e ↦ rw e (in_state-IsSound tn sb_iac_state h)
  | inr e ↦ rw e (subst IsSound (sym (accumulate_same tn c)) (accumulate-IsSound tn c tn.state h))
]
step-IsSound os sb_iac_state tn c h = sb_command-IsSound os tn c h

process_from-IsSound :
    (os : Os) (size : ℕ) (input : List ℕ) (tn : Telnet) (out : List ℕ)
    → IsSound tn
    → IsSound (process_from os size tn out input).1
unfolding process_from
process_from-IsSound os size [] tn out h = h
process_from-IsSound os size (c ∷ cs) tn out h =
    process_from-IsSound os size cs _ _ (step-IsSound os tn.state tn c h)

-- From a client whose flags and modes are in step with its options and whose subnegotiation buffer
-- is within its array, `telnet_process_input` leaves a client of which the same is true, whatever
-- bytes the server sends.
pub process_input-IsSound :
    (os : Os) (tn : Telnet) (input : List ℕ) (size : ℕ)
    → IsSound tn
    → IsSound (process_input os tn input size).1
unfolding process_input
process_input-IsSound os tn input size h = process_from-IsSound os size input tn [] h
