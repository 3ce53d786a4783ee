-- ===== src/Telnet/Input/Bounds.antt =====
-- The output of `telnet_process_input` of src/telnet.c: its bound, and what happens there.
use modembridge.Prelude.{
  ℕ, ◌≤◌, ◌<◌, ◌≡◌, refl, ◌+◌, ◌++◌, ap, ◌∙◌, true, false, List, [], ◌∷◌, arith, length,
  length-append, ◌==◌,
}
use modembridge.Text.Utf8.{is_utf8_start, utf8_sequence_length}
use modembridge.Telnet.State.{TelnetState, data_state, iac_state, Os, Telnet}
use modembridge.Telnet.Input.{put, step, step_out, process_from, process_input}
use modembridge.Telnet.Byte

length-put : (size : ℕ) (out : List ℕ) (c : ℕ) → length out ≤ size → length (put size out c) ≤ size
unfolding put
length-put size out c h = ground (arith, length-append out (c ∷ []))

length-step_out :
    (size : ℕ) (s : TelnetState) (out : List ℕ) (c : ℕ)
    → length out ≤ size
    → length (step_out size s out c) ≤ size
unfolding step_out
length-step_out size data_state out c h = ground (arith, length-put size out c)
length-step_out size iac_state out c h = ground (arith, length-append out (Byte.iac ∷ []))
length-step_out size _ out c h = h

length-process_from :
    (os : Os) (size : ℕ) (input : List ℕ) (tn : Telnet) (out : List ℕ)
    → length out ≤ size
    → length (process_from os size tn out input).0 ≤ size
unfolding process_from
length-process_from os size [] tn out h = h
length-process_from os size (c ∷ cs) tn out h =
    length-process_from os size cs _ _ (length-step_out size tn.state out c h)

-- `telnet_process_input` never writes past its output buffer, whatever it is sent.
length-process_input :
    (os : Os) (tn : Telnet) (input : List ℕ) (size : ℕ)
    → length (process_input os tn input size).0 ≤ size
unfolding process_input
length-process_input os tn input size = length-process_from os size input tn [] (omega arith)

process_from_data :
    (os : Os) (size : ℕ) (tn : Telnet) (out : List ℕ) (c : ℕ) (cs : List ℕ) (s : TelnetState)
    → s ≡ data_state
    → (c == Byte.iac) ≡ false
    → process_from os size (step os s tn c) (step_out size s out c) cs
      ≡ process_from os size tn (put size out c) cs
unfolding step step_out
process_from_data os size tn out c cs s h e = rw (h, step, step_out) (rw e)

put_drops :
    (size lead : ℕ) (out : List ℕ)
    → is_utf8_start lead ≡ true
    → size < length out + utf8_sequence_length lead
    → put size out lead ≡ out
unfolding put
put_drops size lead out a b = ground arith

put_keeps :
    (size c : ℕ) (out : List ℕ)
    → is_utf8_start c ≡ false
    → length out < size
    → put size out c ≡ out ++ c ∷ []
unfolding put
put_keeps size c out a b = ground arith

process_from-append :
    (os : Os) (size : ℕ) (input more : List ℕ) (tn : Telnet) (out : List ℕ)
    → let (out', tn') = process_from os size tn out input in
      process_from os size tn out (input ++ more) ≡ process_from os size tn' out' more
unfolding process_from
process_from-append os size [] more tn out = refl
process_from-append os size (c ∷ cs) more tn out =
    process_from-append os size cs more (step os tn.state tn c) (step_out size tn.state out c)

-- A character is not kept together at the end of the output: whatever came before in the same input,
-- where it leaves the client in state DATA and the output with room, but not for the whole sequence
-- of the lead byte that follows, that byte is dropped, and the byte behind it, which starts no
-- sequence, is kept. Neither of the two is IAC.
pub process_input_splits :
    (os : Os) (tn : Telnet) (before : List ℕ) (lead follow size : ℕ)
    → let (out, tn') = process_input os tn before size in
      tn'.state ≡ data_state
      → is_utf8_start lead ≡ true
      → (lead == Byte.iac) ≡ false
      → (follow == Byte.iac) ≡ false
      → is_utf8_start follow ≡ false
      → length out < size
      → size < length out + utf8_sequence_length lead
      → (process_input os tn (before ++ lead ∷ follow ∷ []) size).0 ≡ out ++ follow ∷ []
unfolding process_input process_from
process_input_splits os tn before lead follow size h a b c d e f =
    let (out, t) = process_input os tn before size in
    ap (λ r. r.0)
      (process_from-append os size before (lead ∷ follow ∷ []) tn []
        ∙ process_from_data os size t out lead (follow ∷ []) t.state h b
        ∙ ap (λ o. process_from os size t o (follow ∷ [])) (put_drops size lead out a f)
        ∙ process_from_data os size t out follow [] t.state h c
        ∙ ap (λ o. process_from os size t o []) (put_keeps size follow out d e))
