-- ===== src/Telnet/Reads.antt =====
-- `telnet_process_reads` of src/telnet.c: from the socket through the read buffer to the receiving
-- machine.
pub mod Cursor
pub mod Whole
use modembridge.Prelude.{
  ℕ, zero, suc, ◌+◌, ◌-◌, false, List, [], ◌∷◌, ◌++◌, not, ltb, leb, length, take, drop,
  if◌then◌else◌,
}
use modembridge.Common.{Status, success, error_invalid_arg, error_io, buffer_size}
use modembridge.Telnet.State.{Os, Telnet, is_open}
use modembridge.Telnet.Send.{RecvResult, received, closed, no_data, recv_failed}
use modembridge.Telnet.Input.{process_input}

-- BUFFER_SIZE / 2.
abbrev pub chunk_limit : ℕ
chunk_limit = 2048

abbrev pub chunk_size : ℕ → ℕ
chunk_size left = if ltb chunk_limit left then chunk_limit else left

-- The loop, with fuel: every round that goes on moves `read_pos` by a byte at least, so that the
-- length of the read buffer is enough.
unfoldable pub read_loop : Os → ℕ → ℕ → Telnet → List ℕ → List ℕ × Telnet
read_loop os output_size zero tn out = (out, tn)
read_loop os output_size (suc fuel) tn out =
    let size = chunk_size (length tn.read_buf - tn.read_pos) in
    let (clean, t) = process_input os tn (take size (drop tn.read_pos tn.read_buf)) buffer_size in
    let t' = record t { read_pos = t.read_pos + size } in
    let rest = read_loop os output_size fuel t' (out ++ clean) in
    if ltb tn.read_pos (length tn.read_buf)
    then (if leb (length out + length clean) output_size then rest else (out, t'))
    else (out, tn)

-- The bytes that are left move to the beginning of the buffer.
unfoldable pub compact : Telnet → Telnet
compact tn =
    if leb (length tn.read_buf) tn.read_pos
    then record tn { read_pos = 0; read_buf = [] }
    else if ltb 0 tn.read_pos
    then record tn { read_buf = drop tn.read_pos tn.read_buf; read_pos = 0 }
    else tn

-- `telnet_process_reads`, with what `recv` answers for the room that `read_buf` has: the result, the
-- output, whose length is `*output_len`, and the client.
unfoldable pub process_reads : Os → ℕ → RecvResult → Telnet → Status × List ℕ × Telnet
unfolding read_loop compact
process_reads os output_size answer tn =
    if not (is_open tn.fd)
    then (error_invalid_arg, [], tn)
    else if not tn.can_read
    then (success, [], tn)
    else elim answer [
      | received c cs ↦
          let t = record tn { read_buf = tn.read_buf ++ c ∷ cs } in
          let (out, t') = read_loop os output_size (length t.read_buf) t [] in
          (success, out, compact t')
      | closed ↦ (success, [], record tn { is_connected = false })
      | no_data ↦ (success, [], tn)
      | recv_failed ↦ (error_io, [], tn)
    ]
