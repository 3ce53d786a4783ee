-- ===== src/Telnet/Input/RoundTrip.antt =====
-- The receiving machine of src/telnet.c undoes the escaping of its sender.
use modembridge.Prelude.{
  ℕ, ◌+◌, ◌*◌, ◌≤◌, ◌≡◌, refl, sym, ap, ◌∙◌, false, List, [], ◌∷◌, arith, length, ◌==◌, Bool-cases,
  inl, inr,
}
use modembridge.Telnet.State.{data_state, Os, Telnet}
use modembridge.Telnet.Input.{in_state, step, process_input, iac_command}
use modembridge.Telnet.Input.Stream.{decode, process_input-decode}
use modembridge.Telnet.Output.{prepare_output}
use modembridge.Telnet.Output.Escape.{escape, prepare_output_all, length-escape-le}
use modembridge.Telnet.Byte

pub in_state_self : (tn : Telnet) → tn.state ≡ data_state → tn ≡ in_state tn data_state
in_state_self tn h = λ i. record tn { state = h i }

decode_plain :
    (os : Os) (tn : Telnet) (c : ℕ) (rest : List ℕ)
    → (c == Byte.iac) ≡ false
    → decode os (in_state tn data_state) (c ∷ rest) ≡ (
      c ∷ (decode os (in_state tn data_state) rest).0,
      (decode os (in_state tn data_state) rest).1,
    )
unfolding decode step
decode_plain os tn c rest h = rw h

decode_doubled :
    (os : Os) (tn : Telnet) (rest : List ℕ)
    → decode os (in_state tn data_state) (Byte.iac ∷ Byte.iac ∷ rest) ≡ (
      Byte.iac ∷ (decode os (in_state tn data_state) rest).0,
      (decode os (in_state tn data_state) rest).1,
    )
unfolding decode step iac_command
decode_doubled os tn rest = refl

decode-escape :
    (os : Os) (xs : List ℕ) (tn : Telnet)
    → decode os (in_state tn data_state) (escape xs) ≡ (xs, in_state tn data_state)
unfolding escape
decode-escape os [] tn = unfold decode in refl
decode-escape os (c ∷ cs) tn = elim (Bool-cases (c == Byte.iac)) [
  | inl special ↦ rw special (
      decode_doubled os tn (escape cs)
      ∙ ap (λ r. (Byte.iac ∷ r.0, r.1)) (decode-escape os cs tn)
      ∙ ap (λ b. (b ∷ cs, in_state tn data_state)) (ground arith))
  | inr plain ↦
      rw plain
        (decode_plain os tn c (escape cs) plain ∙ ap (λ r. (c ∷ r.0, r.1)) (decode-escape os cs tn))
]

-- What the sender escapes the receiver restores, whatever the bytes, and the receiver is then as
-- before: in state DATA, with two bytes of room for each byte in `telnet_prepare_output` and three
-- more in `telnet_process_input`.
pub process_input-prepare_output :
    (os : Os) (tn : Telnet) (xs : List ℕ) (wire_size size : ℕ)
    → tn.state ≡ data_state
    → 2 * length xs ≤ wire_size
    → 2 * length xs + 3 ≤ size
    → process_input os tn (prepare_output xs wire_size) size ≡ (xs, tn)
process_input-prepare_output os tn xs wire_size size h w r =
    rw (prepare_output_all xs wire_size w) (
      process_input-decode os tn (escape xs) size (omega (arith, length-escape-le xs))
      ∙ ap (λ t. decode os t (escape xs)) (in_state_self tn h)
      ∙ decode-escape os xs tn
      ∙ ap (λ t. (xs, t)) (sym (in_state_self tn h)))
