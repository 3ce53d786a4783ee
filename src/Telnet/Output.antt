-- ===== src/Telnet/Output.antt =====
-- `telnet_prepare_output` of src/telnet.c: the bytes for the wire, with IAC doubled.
pub mod Escape
use modembridge.Prelude.{ℕ, ◌+◌, List, [], ◌∷◌, ◌++◌, ltb, ◌==◌, length, if◌then◌else◌}
use modembridge.Telnet.Byte

-- The loop, on what is left of the input and the output so far; `break` ends it.
unfoldable pub prepare_from : ℕ → List ℕ → List ℕ → List ℕ
prepare_from output_size out [] = out
prepare_from output_size out (c ∷ cs) =
    let escaped = prepare_from output_size (out ++ Byte.iac ∷ Byte.iac ∷ []) cs in
    let plain = prepare_from output_size (out ++ c ∷ []) cs in
    if c == Byte.iac
    then (if ltb (length out + 1) output_size then escaped else out)
    else if ltb (length out) output_size
    then plain
    else out

unfoldable pub prepare_output : List ℕ → ℕ → List ℕ
unfolding prepare_from
prepare_output input output_size = prepare_from output_size [] input
