-- ===== src/Modem/Hardware/Agrees.antt =====
-- What the messages of the hardware modem in src/modem.c, in any order with the signals of the line,
-- keep true.
use modembridge.Prelude.{
  ℕ, ◌+◌, ◌-◌, ◌≡◌, refl, sym, ◌∙◌, Bool, true, false, ◌&&◌, ◌||◌, Option, none, some, List, [],
  ◌∷◌, arith, length, length-append, length-take, take, Bool-cases, inl, inr, ltb, leb, ◌==◌,
  if◌then◌else◌,
}
use modembridge.Modem.State.{
  Modem, ModemState, command_mode, online_mode, ringing, connecting, disconnected, Serial,
  set_baudrate, put_sreg, ring_count, auto_answer, int_bound,
}
use modembridge.Modem.Response.{serial_write, ring_text, connect_text}
use modembridge.Modem.Carrier.{is_online_state, call}
use modembridge.Modem.Carrier.Sound.{IsSound, moved, either-IsSound}
use modembridge.Modem.Carrier.Agrees.{process_dcd_change-IsSound, terminated-IsSound}
use modembridge.Modem.Hardware.{
  c_string, find, contains, has_line_end, has_disconnection, append_message, clear_message, dropped,
  watch_online, expire_message, ata_cmd, is_sent, answering, ring, connected, other_message,
  is_unknown, count_ring, rung, read_message, process_hardware_message, speed_after,
  baudrate_to_speed_t,
}

-- Of a result that is defined.
abbrev pub Holds : Option (Bool × Modem) → Type 0
Holds none = Unit
Holds (some r) = IsSound r.1

either-Holds :
    (b : Bool) (o p : Option (Bool × Modem)) → Holds o → Holds p → Holds (if b then o else p)
either-Holds true o p v w = v
either-Holds false o p v w = w

either-Second :
    (b : Bool) (x y : Bool × Modem) → IsSound x.1 → IsSound y.1 → IsSound (if b then x else y).1
either-Second true x y v w = v
either-Second false x y v w = w

append-IsSound :
    (now : ℕ) (bytes : List ℕ) (m : Modem) → IsSound m → IsSound (append_message now bytes m)
unfolding append_message
append-IsSound now bytes m v =
    let space = 1023 - length m.hw_msg_buffer in
    either-IsSound (space == 0) m _ v (record {
      online_is = v.online_is;
      message_fits = omega (
        arith,
        length-append m.hw_msg_buffer (take space bytes),
        length-take space bytes,
        v.message_fits,
      );
    })

clear-IsSound : (m : Modem) → IsSound m → IsSound (clear_message m)
unfolding clear_message
clear-IsSound m v = record { online_is = v.online_is; message_fits = omega arith }

dropped-IsSound : (serial : Serial) (m : Modem) → IsSound m → IsSound (dropped serial m)
unfolding dropped is_online_state
dropped-IsSound serial m v = moved _ _ refl refl (process_dcd_change-IsSound serial false m v)

watch-IsSound : (serial : Serial) (m : Modem) → IsSound m → IsSound (watch_online serial m).1
unfolding watch_online
watch-IsSound serial m v =
    let message = c_string m.hw_msg_buffer in
    either-Second (has_line_end message || ltb 64 (length m.hw_msg_buffer)) _ (false, m)
      (either-Second (has_disconnection message) _ _ (clear-IsSound _ (dropped-IsSound serial m v))
        (clear-IsSound m v))
      v

expire-IsSound : (now : ℕ) (m : Modem) → IsSound m → IsSound (expire_message now m)
unfolding expire_message
expire-IsSound now m v = either-IsSound _ _ m (clear-IsSound m v) v

-- A modem that is not online may begin to answer.
answering-IsSound : (m : Modem) → m.online ≡ false → IsSound m → IsSound (answering m)
unfolding answering put_sreg is_online_state
answering-IsSound m o v = moved m _ o refl v

ring-IsSound :
    (serial : Serial) (m : Modem) → m.online ≡ false → IsSound m → IsSound (ring serial m)
unfolding ring serial_write
ring-IsSound serial m o v =
    let asked =
      moved m (record m { actions = modembridge.Modem.State.write ata_cmd ∷ m.actions }) v.online_is
        refl v in
    let rings = m.settings.s_registers ring_count in
    let threshold = m.settings.s_registers auto_answer in
    either-IsSound (ltb 0 threshold && leb threshold rings) _ _ (answering-IsSound m o v) (
      either-IsSound (threshold == 0 && leb 2 rings) _ m
        (either-IsSound
          (is_sent (serial.written (modembridge.Modem.State.write ata_cmd ∷ m.actions))) _ _
          (answering-IsSound _ o asked) asked)
        v)

connected-IsSound :
    (serial : Serial) (atoi : List ℕ → ℕ) (message : List ℕ) (m : Modem)
    → IsSound m
    → IsSound (connected serial atoi message m)
unfolding connected is_online_state
connected-IsSound serial atoi message m v =
    let rate = speed_after atoi (find (b' ' ∷ []) message) in
    let adjusted =
      either-IsSound (ltb 0 rate) (call (set_baudrate (baudrate_to_speed_t rate)) m) m
        (unfold call in moved m _ v.online_is refl v) v in
    process_dcd_change-IsSound serial true _ (moved _ _ refl refl adjusted)

other-IsSound :
    (serial : Serial) (atoi : List ℕ → ℕ) (message : List ℕ) (o : Option (List ℕ)) (m : Modem)
    → IsSound m
    → IsSound (other_message serial atoi message o m).1
unfolding other_message
other-IsSound serial atoi message (some from) m v =
    either-Second (has_line_end from) _ (false, m)
      (clear-IsSound _ (connected-IsSound serial atoi from m v)) v
other-IsSound serial atoi message none m v =
    either-Second _ _ _ (clear-IsSound _ (terminated-IsSound serial m v))
      (either-Second (is_unknown message) _ (false, m) (clear-IsSound m v) v)

counted-Rings :
    (serial : Serial) (m : Modem)
    → m.online ≡ false
    → IsSound m
    → Holds (rung serial (count_ring m))
unfolding rung count_ring put_sreg
counted-Rings serial m o v =
    elim (Bool-cases (ltb (m.settings.s_registers ring_count + 1) int_bound)) [
      | inl e ↦ rw e (clear-IsSound _ (ring-IsSound serial _ o (moved m _ v.online_is refl v)))
      | inr e ↦ rw e tt
    ]

read-Holds :
    (serial : Serial) (atoi : List ℕ → ℕ) (m : Modem)
    → m.online ≡ false
    → IsSound m
    → Holds (read_message serial atoi m)
unfolding read_message
read-Holds serial atoi m o v =
    let message = c_string m.hw_msg_buffer in
    either-Holds (contains ring_text message) _ _ (counted-Rings serial m o v)
      (other-IsSound serial atoi message (find connect_text message) m v)

offline_append :
    (now : ℕ) (bytes : List ℕ) (m : Modem)
    → m.online ≡ (append_message now bytes (expire_message now m)).online
unfolding append_message expire_message clear_message
offline_append now bytes m = ground arith

pub message-Holds :
    (serial : Serial) (atoi : List ℕ → ℕ) (now : ℕ) (bytes : List ℕ) (m : Modem)
    → IsSound m
    → Holds (process_hardware_message serial atoi now bytes m)
unfolding process_hardware_message
message-Holds serial atoi now bytes m v = elim (Bool-cases (length bytes == 0)) [
  | inl e ↦ rw e v
  | inr e ↦ rw e (elim (Bool-cases (is_online_state m.state)) [
    | inl o ↦ rw o (watch-IsSound serial _ (append-IsSound now bytes m v))
    | inr o ↦ rw o (
        read-Holds serial atoi _ (sym (offline_append now bytes m) ∙ (v.online_is ∙ o))
          (append-IsSound now bytes _ (expire-IsSound now m v)))
  ])
]
