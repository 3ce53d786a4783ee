-- ===== src/Modem/Carrier/Agrees.antt =====
-- What the signals of the line in src/modem.c keep true.
use modembridge.Common.{Status, success, error_io}
use modembridge.Prelude.{
  ℕ, ◌≡◌, refl, sym, ap, ◌∙◌, Bool, true, false, not, ◌&&◌, ◌||◌, Option, none, some, ◌∷◌, arith,
  Bool-cases, inl, inr, leb, ◌==◌, if◌then◌else◌,
}
use modembridge.Modem.State.{
  Modem, ModemState, command_mode, online_mode, ringing, connecting, disconnected, Serial, put_sreg,
  reset, set_dtr,
}
use modembridge.Modem.Call.{hangup, go_offline, set_carrier}
use modembridge.Modem.Carrier.{
  is_online_state, is_connecting, call, cleanup_from, handle_dcd_falling_cleanup, follow, rise_from,
  flush_fallen, change_state, process_dcd_change, handle_no_carrier_termination,
  process_dtr_dcd_transitions, monitor_dcd_signal, dtr_fell, dtr_rose, handle_dtr_change,
  go_offline_enhanced, offline_from,
}
use modembridge.Modem.Carrier.Sound.{
  IsSound, moved, either-IsSound, no_carrier-IsSound, flush-IsSound, follow-IsSound, ended-IsSound,
  cleared-IsSound,
}

cleanup_from-IsSound :
    (s : ModemState) (serial : Serial) (m : Modem) → IsSound m → IsSound (cleanup_from s serial m)
unfolding cleanup_from is_online_state
cleanup_from-IsSound online_mode serial m v =
    no_carrier-IsSound serial _
      (flush-IsSound serial _ (cleared-IsSound _ (ended-IsSound command_mode m refl v)))
cleanup_from-IsSound connecting serial m v =
    no_carrier-IsSound serial _ (ended-IsSound disconnected m refl v)
cleanup_from-IsSound ringing serial m v =
    no_carrier-IsSound serial _ (ended-IsSound disconnected m refl v)
cleanup_from-IsSound command_mode serial m v = v
cleanup_from-IsSound disconnected serial m v = v

rise_from-IsSound :
    (s : ModemState) (serial : Serial) (m : Modem)
    → s ≡ m.state
    → IsSound m
    → IsSound (rise_from s serial m)
unfolding rise_from is_online_state
rise_from-IsSound connecting serial m e v = moved m _ refl refl v
rise_from-IsSound ringing serial m e v = moved m _ refl refl v
rise_from-IsSound online_mode serial m e v = v
rise_from-IsSound disconnected serial m e v = elim (Bool-cases (serial.is_open m.actions)) [
  | inl o ↦ rw o (moved m _ (v.online_is ∙ ap is_online_state (sym e)) refl v)
  | inr o ↦ rw o v
]
rise_from-IsSound command_mode serial m e v = elim (Bool-cases (serial.is_open m.actions)) [
  | inl o ↦ rw o (moved m _ (v.online_is ∙ ap is_online_state (sym e)) refl v)
  | inr o ↦ rw o v
]

flush_fallen-IsSound :
    (s : ModemState) (serial : Serial) (m : Modem) → IsSound m → IsSound (flush_fallen s serial m)
unfolding flush_fallen
flush_fallen-IsSound online_mode serial m v =
    elim (Bool-cases (m.settings.dtr_mode == 2 || m.settings.dtr_mode == 3)) [
      | inl o ↦ rw o (flush-IsSound serial m v)
      | inr o ↦ rw o v
    ]
flush_fallen-IsSound connecting serial m v = v
flush_fallen-IsSound ringing serial m v = v
flush_fallen-IsSound command_mode serial m v = v
flush_fallen-IsSound disconnected serial m v = v

follow_state : (dcd : Bool) (m : Modem) → m.state ≡ (follow dcd m).state
unfolding follow set_carrier
follow_state dcd m = ground arith

change_state-IsSound :
    (dcd : Bool) (serial : Serial) (m : Modem) → IsSound m → IsSound (change_state dcd serial m)
unfolding change_state handle_dcd_falling_cleanup
change_state-IsSound true serial m v =
    rise_from-IsSound m.state serial (follow true m) (follow_state true m) (follow-IsSound true m v)
change_state-IsSound false serial m v =
    flush_fallen-IsSound m.state serial _
      (cleanup_from-IsSound _ serial (follow false m) (follow-IsSound false m v))

pub process_dcd_change-IsSound :
    (serial : Serial) (dcd : Bool) (m : Modem)
    → IsSound m
    → IsSound (process_dcd_change serial dcd m)
unfolding process_dcd_change call
process_dcd_change-IsSound serial dcd m v =
    let w =
      change_state-IsSound dcd serial (record m { last_dcd_state = dcd })
        (moved m (record m { last_dcd_state = dcd }) v.online_is refl v) in
    either-IsSound _ _ _ (moved _ _ w.online_is refl w) w

pub terminated-IsSound :
    (serial : Serial) (m : Modem) → IsSound m → IsSound (handle_no_carrier_termination serial m)
unfolding handle_no_carrier_termination is_online_state
terminated-IsSound serial m v =
    either-IsSound (m.online || is_online_state m.state) _ _
      (process_dcd_change-IsSound serial false _
        (cleared-IsSound _ (ended-IsSound command_mode m refl v)))
      (either-IsSound (is_connecting m.state) _ _
        (process_dcd_change-IsSound serial false _ (ended-IsSound disconnected m refl v)) v)

either_second :
    (b : Bool) (x y : Status × Modem) → IsSound x.1 → IsSound y.1 → IsSound (if b then x else y).1
either_second true x y v w = v
either_second false x y v w = w

monitored :
    (serial : Serial) (now : ℕ) (dcd : Option Bool) (m : Modem)
    → IsSound m
    → IsSound (monitor_dcd_signal serial now dcd m).1
unfolding monitor_dcd_signal
monitored serial now none m v = either_second (not m.dcd_monitoring_enabled) _ _ v (
    either_second (not (serial.is_open m.actions)) _ _ v
      (either_second (leb now m.last_dcd_check_time) (success, m) (error_io, m) v v))
monitored serial now (some dcd) m v =
    let checked = moved m (record m { last_dcd_check_time = now }) v.online_is refl v in
    either_second (not m.dcd_monitoring_enabled) _ _ v (
      either_second (not (serial.is_open m.actions)) _ _ v (
        either_second (leb now m.last_dcd_check_time) _ _ v (
          either_second (if dcd then m.last_dcd_state else not m.last_dcd_state) _ _ checked
            (process_dcd_change-IsSound serial dcd _ checked))))

pub monitor-IsSound :
    (serial : Serial) (now : ℕ) (dcd : Option Bool) (m : Modem)
    → IsSound m
    → IsSound (process_dtr_dcd_transitions serial now dcd m)
unfolding process_dtr_dcd_transitions
monitor-IsSound serial now dcd m v =
    either-IsSound (serial.is_open m.actions && m.dcd_monitoring_enabled) _ m
      (monitored serial now dcd m v) v

hangup-IsSound : (serial : Serial) (m : Modem) → IsSound m → IsSound (hangup serial m)
unfolding hangup put_sreg is_online_state
hangup-IsSound serial m v =
    either-IsSound (serial.is_open m.actions) _ _ (moved m _ refl refl v) (moved m _ refl refl v)

reset-IsSound : (m : Modem) → IsSound (reset m)
unfolding reset is_online_state
reset-IsSound m = record { online_is = refl; message_fits = omega arith }

dtr_fell-IsSound : (serial : Serial) (m : Modem) → IsSound m → IsSound (dtr_fell serial m)
unfolding dtr_fell is_online_state
dtr_fell-IsSound serial m v =
    let mode = m.settings.dtr_mode in
    let off = record m { state = disconnected; online = false } in
    either-IsSound (mode == 1) _ _
      (either-IsSound m.online (record m { state = command_mode; online = false }) m
        (moved m _ refl refl v) v)
      (either-IsSound (mode == 2) _ _
        (either-IsSound (m.online || is_connecting m.state) _ m
          (no_carrier-IsSound serial _ (hangup-IsSound serial off (moved m off refl refl v))) v)
        (either-IsSound (mode == 3) _ m (no_carrier-IsSound serial _ (reset-IsSound m)) v))

dtr_rose-IsSound : (s : ModemState) (m : Modem) → s ≡ m.state → IsSound m → IsSound (dtr_rose s m)
unfolding dtr_rose is_online_state
dtr_rose-IsSound disconnected m e v = moved m _ (v.online_is ∙ ap is_online_state (sym e)) refl v
dtr_rose-IsSound command_mode m e v = v
dtr_rose-IsSound online_mode m e v = v
dtr_rose-IsSound ringing m e v = v
dtr_rose-IsSound connecting m e v = v

pub dtr-IsSound :
    (serial : Serial) (dtr : Bool) (m : Modem)
    → IsSound m
    → IsSound (handle_dtr_change serial dtr m)
unfolding handle_dtr_change
dtr-IsSound serial dtr m v =
    either-IsSound dtr _ _ (dtr_rose-IsSound m.state m refl v) (dtr_fell-IsSound serial m v)

go_offline-IsSound : (m : Modem) → IsSound m → IsSound (go_offline m)
unfolding go_offline is_online_state
go_offline-IsSound m v = moved m _ refl refl v

offline_from-IsSound :
    (s : ModemState) (serial : Serial) (m : Modem) → IsSound m → IsSound (offline_from s serial m)
unfolding offline_from set_carrier call
offline_from-IsSound online_mode serial m v =
    let dropped =
      either-IsSound (serial.is_open m.actions) (record m { actions = set_dtr false ∷ m.actions }) m
        (moved m _ v.online_is refl v) v in
    moved _ _ dropped.online_is refl dropped
offline_from-IsSound command_mode serial m v = v
offline_from-IsSound ringing serial m v = v
offline_from-IsSound connecting serial m v = v
offline_from-IsSound disconnected serial m v = v

pub offline-IsSound :
    (serial : Serial) (m : Modem) → IsSound m → IsSound (go_offline_enhanced serial m)
unfolding go_offline_enhanced
offline-IsSound serial m v =
    offline_from-IsSound m.state serial (go_offline m) (go_offline-IsSound m v)
