-- ===== src/Telnet/Reads/Cursor.antt =====
-- The receiving machine of src/telnet.c leaves the read buffer alone.
use modembridge.Prelude.{ℕ, ◌≡◌, refl, ap, ◌∙◌, List, [], ◌∷◌, ◌++◌, arith}
use modembridge.Telnet.State.{
  TelnetState, data_state, iac_state, will_state, wont_state, do_state, dont_state, sb_state,
  sb_iac_state, Os, Telnet,
}
use modembridge.Telnet.Negotiate.{
  send_control, send_negotiate, update_mode, handle_will, handle_wont, handle_do, handle_dont,
  handle_negotiate,
}
use modembridge.Telnet.Subnegotiate.{
  send_subnegotiation, handle_ttype, handle_mode, handle_linemode, handle_option,
  handle_subnegotiation_of, handle_subnegotiation, has_bit, lm_mode, mode_edit, ttype_is,
}
use modembridge.Telnet.Send.{send, after_send, update_activity}
use modembridge.Telnet.Input.{in_state, here, iac_command, accumulate, sb_command, step}
use modembridge.Telnet.Input.Stream.{emits, decode}
use modembridge.Telnet.Byte
use modembridge.Telnet.Telopt

-- The client with another read buffer.
abbrev pub cursor : Telnet → ℕ → List ℕ → Telnet
cursor tn pos buf = record tn { read_pos = pos; read_buf = buf }

module _ (os : Os) (tn : Telnet) (pos : ℕ) (buf : List ℕ) where
  send_negotiate-cursor :
      (command option : ℕ)
      → (send_negotiate os (cursor tn pos buf) command option).1
        ≡ cursor (send_negotiate os tn command option).1 pos buf
  unfolding send_negotiate send_control
  send_negotiate-cursor command option = ground arith

  send-cursor :
      (payload : List ℕ)
      → (send os (cursor tn pos buf) payload).1 ≡ cursor (send os tn payload).1 pos buf
  unfolding send after_send update_activity
  send-cursor payload = ground arith

  accumulate-cursor : (c : ℕ) → accumulate (cursor tn pos buf) c ≡ cursor (accumulate tn c) pos buf
  unfolding accumulate
  accumulate-cursor c = ground arith

  handle_will-cursor :
      (o : ℕ) → handle_will os (cursor tn pos buf) o ≡ cursor (handle_will os tn o) pos buf
  unfolding handle_will send_negotiate send_control
  handle_will-cursor o = ground arith

  handle_wont-cursor :
      (o : ℕ) → handle_wont os (cursor tn pos buf) o ≡ cursor (handle_wont os tn o) pos buf
  unfolding handle_wont send_negotiate send_control
  handle_wont-cursor o = ground arith

  handle_do-cursor :
      (o : ℕ) → handle_do os (cursor tn pos buf) o ≡ cursor (handle_do os tn o) pos buf
  unfolding handle_do send_negotiate send_control
  handle_do-cursor o = ground arith

  handle_dont-cursor :
      (o : ℕ) → handle_dont os (cursor tn pos buf) o ≡ cursor (handle_dont os tn o) pos buf
  unfolding handle_dont send_negotiate send_control
  handle_dont-cursor o = ground arith

  send_subnegotiation-cursor :
      (payload : List ℕ)
      → (send_subnegotiation os (cursor tn pos buf) payload).1
        ≡ cursor (send_subnegotiation os tn payload).1 pos buf
  unfolding send_subnegotiation send_control
  send_subnegotiation-cursor [] = refl
  send_subnegotiation-cursor (c ∷ cs) = ground arith

  handle_negotiate-cursor :
      (command o : ℕ)
      → handle_negotiate os (cursor tn pos buf) command o
        ≡ cursor (handle_negotiate os tn command o) pos buf
  unfolding handle_negotiate update_mode
  handle_negotiate-cursor command o =
      ground (
        arith,
        handle_will-cursor o,
        handle_wont-cursor o,
        handle_do-cursor o,
        handle_dont-cursor o,
      )

  handle_ttype-cursor :
      (rest : List ℕ)
      → handle_ttype os (cursor tn pos buf) rest ≡ cursor (handle_ttype os tn rest) pos buf
  unfolding handle_ttype
  handle_ttype-cursor [] = refl
  handle_ttype-cursor (c ∷ cs) =
      ground (arith, send_subnegotiation-cursor (Telopt.ttype ∷ ttype_is ∷ tn.terminal_type))

module _ (os : Os) (tn : Telnet) (pos : ℕ) (buf : List ℕ) where
  handle_mode-cursor :
      (mode : ℕ) → handle_mode os (cursor tn pos buf) mode ≡ cursor (handle_mode os tn mode) pos buf
  unfolding handle_mode update_mode
  handle_mode-cursor mode =
      let t1 = record tn { linemode_edit = has_bit mode mode_edit } in
      ground
        (arith, send_subnegotiation-cursor os t1 pos buf (Telopt.linemode ∷ lm_mode ∷ mode ∷ []))

  handle_linemode-cursor :
      (rest : List ℕ)
      → handle_linemode os (cursor tn pos buf) rest ≡ cursor (handle_linemode os tn rest) pos buf
  handle_linemode-cursor [] = unfold handle_linemode in refl
  handle_linemode-cursor (c ∷ []) = unfold handle_linemode in refl
  handle_linemode-cursor (c ∷ mode ∷ cs) =
      unfold handle_linemode in ground (arith, handle_mode-cursor mode)

  handle_subnegotiation_of-cursor :
      (payload : List ℕ)
      → (handle_subnegotiation_of os (cursor tn pos buf) payload).1
        ≡ cursor (handle_subnegotiation_of os tn payload).1 pos buf
  handle_subnegotiation_of-cursor [] = unfold handle_subnegotiation_of in refl
  handle_subnegotiation_of-cursor (c ∷ cs) =
      unfold handle_subnegotiation_of handle_option in
      ground (arith, handle_ttype-cursor os tn pos buf cs, handle_linemode-cursor cs)

  iac_command-cursor :
      (c : ℕ) → iac_command os (cursor tn pos buf) c ≡ cursor (iac_command os tn c) pos buf
  unfolding iac_command
  iac_command-cursor c = ground (arith, send-cursor os tn pos buf here)

  sb_command-cursor :
      (c : ℕ) → sb_command os (cursor tn pos buf) c ≡ cursor (sb_command os tn c) pos buf
  unfolding sb_command handle_subnegotiation
  sb_command-cursor c = ground (
    arith,
    handle_subnegotiation_of-cursor tn.sb_buffer,
    accumulate-cursor os tn pos buf Byte.iac,
    accumulate-cursor os tn pos buf c,
  )

  step-cursor :
      (s : TelnetState) (c : ℕ) → step os s (cursor tn pos buf) c ≡ cursor (step os s tn c) pos buf
  unfolding step
  step-cursor data_state c = ground arith
  step-cursor iac_state c = iac_command-cursor c
  step-cursor will_state c =
      ap (λ t. in_state t data_state) (handle_negotiate-cursor os tn pos buf Byte.will c)
  step-cursor wont_state c =
      ap (λ t. in_state t data_state) (handle_negotiate-cursor os tn pos buf Byte.wont c)
  step-cursor do_state c =
      ap (λ t. in_state t data_state) (handle_negotiate-cursor os tn pos buf Byte.do_it c)
  step-cursor dont_state c =
      ap (λ t. in_state t data_state) (handle_negotiate-cursor os tn pos buf Byte.dont c)
  step-cursor sb_state c = ground (arith, accumulate-cursor os tn pos buf c)
  step-cursor sb_iac_state c = sb_command-cursor c

-- What the machine does with a stream of bytes does not depend on the read buffer, which it keeps.
pub decode-cursor :
    (os : Os) (xs : List ℕ) (tn : Telnet) (pos : ℕ) (buf : List ℕ)
    → decode os (cursor tn pos buf) xs ≡ ((decode os tn xs).0, cursor (decode os tn xs).1 pos buf)
unfolding decode
decode-cursor os [] tn pos buf = refl
decode-cursor os (c ∷ cs) tn pos buf =
    let next = step os tn.state tn c in
    let e =
      ap (λ t. decode os t cs) (step-cursor os tn pos buf tn.state c)
      ∙ decode-cursor os cs next pos buf in
    ap (λ r. (emits tn.state c ++ r.0, r.1)) e
