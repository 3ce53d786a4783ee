-- ===== src/Telnet/Input/Stream.antt =====
-- `telnet_process_input` of src/telnet.c as a decoder of a stream, where the output has room.
use modembridge.Prelude.{
  ℕ, ◌+◌, ◌≤◌, ◌≡◌, refl, sym, ap, ap₂, ◌∙◌, List, [], ◌∷◌, ◌++◌, append-nil, append_assoc, arith,
  length, length-append, ◌==◌, if◌then◌else◌,
}
use modembridge.Text.Utf8.{utf8_sequence_length}
use modembridge.Telnet.State.{TelnetState, data_state, iac_state, Os, Telnet}
use modembridge.Telnet.Input.{put, step, step_out, process_from, process_input}
use modembridge.Telnet.Byte

-- What one byte adds to the output, where there is room.
abbrev pub emits : TelnetState → ℕ → List ℕ
emits data_state c = if c == Byte.iac then [] else c ∷ []
emits iac_state c = if c == Byte.iac then Byte.iac ∷ [] else []
emits _ c = []

unfoldable pub decode : Os → Telnet → List ℕ → List ℕ × Telnet
decode os tn [] = ([], tn)
decode os tn (c ∷ cs) =
    let (out, tn') = decode os (step os tn.state tn c) cs in (emits tn.state c ++ out, tn')

pub utf8_sequence_length-le : (c : ℕ) → utf8_sequence_length c ≤ 4
unfolding utf8_sequence_length
utf8_sequence_length-le c = ground arith

put_room :
    (size : ℕ) (out : List ℕ) (c : ℕ) → length out + 4 ≤ size → put size out c ≡ out ++ c ∷ []
unfolding put
put_room size out c h = ground (arith, utf8_sequence_length-le c)

step_out-emits :
    (size : ℕ) (s : TelnetState) (out : List ℕ) (c : ℕ)
    → length out + 4 ≤ size
    → step_out size s out c ≡ out ++ emits s c
unfolding step_out
step_out-emits size data_state out c h = ground (arith, put_room size out c, append-nil out)
step_out-emits size iac_state out c h = ground (arith, append-nil out)
step_out-emits size _ out c h = sym (append-nil out)

pub length-emits-le : (s : TelnetState) (c : ℕ) → length (emits s c) ≤ 1
length-emits-le data_state c = ground arith
length-emits-le iac_state c = ground arith
length-emits-le _ c = omega arith

process_from-decode :
    (os : Os) (size : ℕ) (input : List ℕ) (tn : Telnet) (out : List ℕ)
    → length out + length input + 3 ≤ size
    → process_from os size tn out input ≡ (out ++ (decode os tn input).0, (decode os tn input).1)
unfolding process_from decode
process_from-decode os size [] tn out h = ap (λ o. (o, tn)) (sym (append-nil out))
process_from-decode os size (c ∷ cs) tn out h =
    let next = step os tn.state tn c in
    let e = step_out-emits size tn.state out c (omega arith) in
    ap (λ o. process_from os size next o cs) e
    ∙ process_from-decode os size cs next (out ++ emits tn.state c)
        (omega (arith, length-append out (emits tn.state c), length-emits-le tn.state c))
    ∙ ap (λ o. (o, (decode os next cs).1)) (append_assoc out (emits tn.state c) _)

-- With room for three bytes more than the input, nothing is dropped.
pub process_input-decode :
    (os : Os) (tn : Telnet) (input : List ℕ) (size : ℕ)
    → length input + 3 ≤ size
    → process_input os tn input size ≡ decode os tn input
unfolding process_input
process_input-decode os tn input size h = process_from-decode os size input tn [] (omega arith)

pub decode-append :
    (os : Os) (xs ys : List ℕ) (tn : Telnet)
    → decode os tn (xs ++ ys) ≡ (
      (decode os tn xs).0 ++ (decode os (decode os tn xs).1 ys).0,
      (decode os (decode os tn xs).1 ys).1,
    )
unfolding decode
decode-append os [] ys tn = refl
decode-append os (c ∷ cs) ys tn =
    let next = step os tn.state tn c in
    let e = decode-append os cs ys next in
    ap₂ (λ o t. (o, t))
      (ap (λ r. emits tn.state c ++ r.0) e ∙ sym (append_assoc (emits tn.state c) _ _))
      (ap (λ r. r.1) e)

-- Where the input is cut makes no difference: two calls on two parts, the second with the client
-- that the first leaves, give together the output and the client of one call on the whole, if the
-- output has room for three bytes more than the input.
pub process_input-append :
    (os : Os) (tn : Telnet) (xs ys : List ℕ) (size : ℕ)
    → length xs + length ys + 3 ≤ size
    → let (out, tn') = process_input os tn xs size in
      let (out', tn'') = process_input os tn' ys size in
      process_input os tn (xs ++ ys) size ≡ (out ++ out', tn'')
process_input-append os tn xs ys size h = rw (process_input-decode os tn xs size (omega arith)) (
    rw (process_input-decode os (decode os tn xs).1 ys size (omega arith)) (
      process_input-decode os tn (xs ++ ys) size (omega (arith, length-append xs ys))
      ∙ decode-append os xs ys tn))
