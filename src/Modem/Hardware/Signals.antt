-- ===== src/Modem/Hardware/Signals.antt =====
-- Histories of the signals of the line and the messages of the hardware modem in src/modem.c.
use modembridge.Prelude.{
  ℕ, ◌≡◌, refl, sym, subst, ap, ◌∙◌, Bool, false, Option, none, some, List, [], ◌∷◌, arith,
}
use modembridge.Modem.State.{
  Modem, ModemState, command_mode, online_mode, ringing, connecting, disconnected, Serial, put_sreg,
}
use modembridge.Modem.Response.{send_no_carrier, no_carrier_text}
use modembridge.Modem.Command.Bounds.{acted, send_response-acted}
use modembridge.Modem.Carrier.{
  is_online_state, call, flush_if_open, ended, cleared, cleanup_from, handle_dcd_falling_cleanup,
  follow, flush_fallen, change_state, process_dcd_change, handle_dtr_change,
  process_dtr_dcd_transitions, go_offline_enhanced,
}
use modembridge.Modem.Carrier.Sound.{IsSound}
use modembridge.Modem.Carrier.Agrees.{
  process_dcd_change-IsSound, monitor-IsSound, dtr-IsSound, offline-IsSound,
}
use modembridge.Modem.Hardware.{process_hardware_message}
use modembridge.Modem.Hardware.Agrees.{message-Holds, Holds}

-- What can happen on the line.
pub data Signal : Type 0 where
  dcd_changed : Bool → Signal
  dtr_changed : Bool → Signal
  polled : ℕ → Option Bool → Signal
  went_offline : Signal
  message : ℕ → List ℕ → Signal

-- The modem of a result.
unfoldable pub result_modem : Option (Bool × Modem) → Option Modem
result_modem none = none
result_modem (some r) = some r.1

unfoldable pub signal : Serial → (List ℕ → ℕ) → Signal → Modem → Option Modem
signal serial atoi (dcd_changed dcd) modem = some (process_dcd_change serial dcd modem)
signal serial atoi (dtr_changed dtr) modem = some (handle_dtr_change serial dtr modem)
signal serial atoi (polled now dcd) modem = some (process_dtr_dcd_transitions serial now dcd modem)
signal serial atoi went_offline modem = some (go_offline_enhanced serial modem)
signal serial atoi (message now bytes) modem =
    result_modem (process_hardware_message serial atoi now bytes modem)

unfoldable pub signals : Serial → (List ℕ → ℕ) → List Signal → Option Modem → Option Modem
signals serial atoi history none = none
signals serial atoi [] (some modem) = some modem
signals serial atoi (s ∷ history) (some modem) =
    signals serial atoi history (signal serial atoi s modem)

abbrev Keeps : Option Modem → Type 0
Keeps none = Unit
Keeps (some m) = IsSound m

result-Keeps : (o : Option (Bool × Modem)) → Holds o → Keeps (result_modem o)
unfolding result_modem
result-Keeps none h = tt
result-Keeps (some r) h = h

signal-Keeps :
    (serial : Serial) (atoi : List ℕ → ℕ) (s : Signal) (m : Modem)
    → IsSound m
    → Keeps (signal serial atoi s m)
unfolding signal
signal-Keeps serial atoi (dcd_changed dcd) m v = process_dcd_change-IsSound serial dcd m v
signal-Keeps serial atoi (dtr_changed dtr) m v = dtr-IsSound serial dtr m v
signal-Keeps serial atoi (polled now dcd) m v = monitor-IsSound serial now dcd m v
signal-Keeps serial atoi went_offline m v = offline-IsSound serial m v
signal-Keeps serial atoi (message now bytes) m v =
    result-Keeps _ (message-Holds serial atoi now bytes m v)

signals-Keeps :
    (serial : Serial) (atoi : List ℕ → ℕ) (history : List Signal) (o : Option Modem)
    → Keeps o
    → Keeps (signals serial atoi history o)
unfolding signals
signals-Keeps serial atoi history none h = tt
signals-Keeps serial atoi [] (some m) v = v
signals-Keeps serial atoi (s ∷ history) (some m) v =
    signals-Keeps serial atoi history (signal serial atoi s m) (signal-Keeps serial atoi s m v)

no_carrier_state : (serial : Serial) (m : Modem) → (send_no_carrier serial m).1.state ≡ m.state
unfolding send_no_carrier acted
no_carrier_state serial m =
    let (log, e) = send_response-acted serial no_carrier_text m in ap (λ (t : Modem). t.state) e

flush_state : (serial : Serial) (m : Modem) → (flush_if_open serial m).state ≡ m.state
unfolding flush_if_open call
flush_state serial m = ground arith

cleanup_state :
    (s : ModemState) (serial : Serial) (m : Modem)
    → s ≡ m.state
    → is_online_state (cleanup_from s serial m).state ≡ false
unfolding cleanup_from is_online_state ended cleared put_sreg
cleanup_state online_mode serial m e =
    ap is_online_state (no_carrier_state serial _ ∙ flush_state serial _)
cleanup_state connecting serial m e = ap is_online_state (no_carrier_state serial _)
cleanup_state ringing serial m e = ap is_online_state (no_carrier_state serial _)
cleanup_state command_mode serial m e = ap is_online_state (sym e)
cleanup_state disconnected serial m e = ap is_online_state (sym e)

flush_fallen_state :
    (s : ModemState) (serial : Serial) (m : Modem) → (flush_fallen s serial m).state ≡ m.state
unfolding flush_fallen flush_if_open call
flush_fallen_state online_mode serial m = ground arith
flush_fallen_state connecting serial m = refl
flush_fallen_state ringing serial m = refl
flush_fallen_state command_mode serial m = refl
flush_fallen_state disconnected serial m = refl

fallen_state :
    (serial : Serial) (m : Modem) → is_online_state (change_state false serial m).state ≡ false
unfolding change_state handle_dcd_falling_cleanup
fallen_state serial m =
    ap is_online_state (flush_fallen_state m.state serial _)
    ∙ cleanup_state (follow false m).state serial (follow false m) refl

fall_state :
    (serial : Serial) (m : Modem)
    → is_online_state (process_dcd_change serial false m).state ≡ false
unfolding process_dcd_change call
fall_state serial m = ground (arith, fallen_state serial (record m { last_dcd_state = false }))

-- From a modem whose flag `online` is set just in the state ONLINE, and whose message buffer has room
-- for its NUL, every history of changes of DCD and DTR, polls of DCD, messages of the hardware modem
-- and enhanced offline calls that is defined leaves both so; and a fall of DCD then leaves it offline.
pub signals-IsSound :
    (serial : Serial) (atoi : List ℕ → ℕ) (history : List Signal) (m m' : Modem)
    → IsSound m
    → signals serial atoi history (some m) ≡ some m'
    → IsSound m' × ((process_dcd_change serial false m').online ≡ false)
signals-IsSound serial atoi history m m' v e =
    let w = subst Keeps e (signals-Keeps serial atoi history (some m) v) in
    (w, (process_dcd_change-IsSound serial false m' w).online_is ∙ fall_state serial m')
