-- ===== src/Modem/Carrier/Sound.antt =====
-- The modem of src/modem.c whose flag `online` and whose state agree.
use modembridge.Prelude.{
  ℕ, ◌≤◌, ◌≡◌, refl, sym, subst, Bool, true, false, List, length, Bool-cases, inl, inr, ◌==◌,
  if◌then◌else◌,
}
use modembridge.Modem.State.{Modem, ModemState, Serial, put_sreg}
use modembridge.Modem.Response.{send_response, send_no_carrier, no_carrier_text}
use modembridge.Modem.Call.{set_carrier}
use modembridge.Modem.Command.Bounds.{acted, send_response-acted}
use modembridge.Modem.Carrier.{is_online_state, call, flush_if_open, ended, cleared, follow}

-- The flag `online` says what the state says, and the message buffer has room for its NUL.
pub record IsSound (m : Modem) : Type 0 where
  pub online_is : m.online ≡ is_online_state m.state
  pub message_fits : length m.hw_msg_buffer ≤ 1023

-- A modem that agrees, with the message buffer as it was.
pub moved :
    (m m' : Modem)
    → m'.online ≡ is_online_state m'.state
    → m'.hw_msg_buffer ≡ m.hw_msg_buffer
    → IsSound m
    → IsSound m'
moved m m' a e v = record {
  online_is = a;
  message_fits = subst (λ (t : List ℕ). length t ≤ 1023) (sym e) v.message_fits;
}

pub either-IsSound : (b : Bool) (m n : Modem) → IsSound m → IsSound n → IsSound (if b then m else n)
either-IsSound true m n v w = v
either-IsSound false m n v w = w

pub send-IsSound :
    (serial : Serial) (text : List ℕ) (m : Modem)
    → IsSound m
    → IsSound (send_response serial text m).1
unfolding acted
send-IsSound serial text m v =
    let (log, e) = send_response-acted serial text m in
    subst IsSound (sym e) (moved m _ v.online_is refl v)

pub no_carrier-IsSound :
    (serial : Serial) (m : Modem) → IsSound m → IsSound (send_no_carrier serial m).1
unfolding send_no_carrier
no_carrier-IsSound serial m v = send-IsSound serial no_carrier_text m v

pub flush-IsSound : (serial : Serial) (m : Modem) → IsSound m → IsSound (flush_if_open serial m)
unfolding flush_if_open call
flush-IsSound serial m v = elim (Bool-cases (serial.is_open m.actions)) [
  | inl e ↦ rw e (moved m _ v.online_is refl v)
  | inr e ↦ rw e v
]

pub follow-IsSound : (dcd : Bool) (m : Modem) → IsSound m → IsSound (follow dcd m)
unfolding follow set_carrier
follow-IsSound dcd m v = elim (Bool-cases (m.settings.dcd_mode == 1)) [
  | inl e ↦ rw e (moved m _ v.online_is refl v)
  | inr e ↦ rw e v
]

pub ended-IsSound :
    (s : ModemState) (m : Modem) → is_online_state s ≡ false → IsSound m → IsSound (ended s m)
unfolding ended put_sreg
ended-IsSound s m h v = moved m _ (sym h) refl v

pub cleared-IsSound : (m : Modem) → IsSound m → IsSound (cleared m)
unfolding cleared
cleared-IsSound m v = moved m _ v.online_is refl v
