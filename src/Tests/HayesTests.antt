-- ===== src/Tests/HayesTests.antt =====
-- The Hayes filter and the serial chunk of src/level3.c at concrete inputs.
use modembridge.Prelude.{
  ℕ, ◌+◌, ◌≤◌, ◌≡◌, refl, ◌∙◌, true, false, some, List, [], ◌∷◌, ◌++◌, arith, length, All,
}
use modembridge.Cbuf.{CircularBuffer}
use modembridge.Cbuf.Invariant.{contents, init-IsValid}
use modembridge.Cbuf.Fifo.{contents-write}
use modembridge.Telnet.State.{Os, Telnet, sent}
use modembridge.Level3.HayesFilter.{HayesFilter, init, filter_hayes_commands}
use modembridge.Level3.HayesFilter.Online.{Line, stream, unblocked, IsLine, IsOnline}
use modembridge.Level3.HayesFilter.Lines.{filter_hayes_commands_lines}
use modembridge.Level3.HayesFilter.Plus.{
  IsSilent, filter_hayes_commands_escape, filter_hayes_commands_reorders,
}
use modembridge.Level3.HayesFilter.Fits.{IsValid}
use modembridge.Level3.HayesFilter.Room.{filter_hayes_commands-IsValid}
use modembridge.Level3.Chunk.{Chunk, process_chunk, chunk_bytes}
use modembridge.Level3.Chunk.Characters.{process_chunk_echo}
use modembridge.Level3.Chunk.Broken.{chunk_bytes_stuck}
use modembridge.Level3.Chunk.Server.{IsReady}
use modembridge.Level3.Chunk.Forward.{sent_lines, chunk_bytes_forward}

-- A filter that went online at the time 900.
abbrev online : HayesFilter
online = record (init 900) { in_online_mode = true }

-- "hi", "ATH" and the byte 0xFF, each with a line end.
abbrev lines : List Line
lines = (b'h' ∷ b'i' ∷ [], 13) ∷ (b'A' ∷ b'T' ∷ b'H' ∷ [], 13) ∷ (255 ∷ [], 10) ∷ []

lines-IsLine : All IsLine lines
lines-IsLine = (
  ((refl, (refl, tt)), refl, omega arith),
  (((refl, (refl, (refl, tt))), refl, omega arith), (((refl, tt), refl, omega arith), tt)),
)

online-IsOnline : IsOnline 1000 online []
online-IsOnline = record { online = refl; no_plus = refl; held = refl; recent = omega arith }

two_pass : unblocked lines ≡ b'h' ∷ b'i' ∷ 13 ∷ 255 ∷ 10 ∷ []
unfolding modembridge.Level3.HayesFilter.is_command_char
two_pass = refl

filter_hayes_commands_lines_example :
    ((filter_hayes_commands 512 1000 online (stream lines)).0 ≡ unblocked lines)
    × IsOnline 1000 (filter_hayes_commands 512 1000 online (stream lines)).1 []
filter_hayes_commands_lines_example =
    filter_hayes_commands_lines 512 1000 online lines online-IsOnline lines-IsLine (omega arith)

online-IsSilent : IsSilent 2000 online
online-IsSilent = record { online = refl; no_plus = refl; silent = omega arith }

filter_hayes_commands_escape_example :
    let (out, ctx') = filter_hayes_commands 512 2000 online (b'+' ∷ b'+' ∷ b'+' ∷ []) in
    (out ≡ []) × (ctx'.in_online_mode ≡ false) × (ctx'.line ≡ []) × (ctx'.plus_count ≡ 0)
filter_hayes_commands_escape_example =
    filter_hayes_commands_escape 512 2000 online online-IsSilent (omega arith)

-- "1" is held when "+2" comes.
abbrev holding : HayesFilter
holding = record online { line = b'1' ∷ [] }

filter_hayes_commands_reorders_example :
    (filter_hayes_commands 512 2000 holding (b'+' ∷ b'2' ∷ ([] ++ 13 ∷ []))).0
    ≡ b'+' ∷ ((b'1' ∷ []) ++ b'2' ∷ []) ++ 13 ∷ []
filter_hayes_commands_reorders_example =
    filter_hayes_commands_reorders 512 2000 holding (b'1' ∷ []) [] b'2' 13
      (record { online = refl; no_plus = refl; silent = omega arith }) refl (λ e. omega (arith, e))
      (refl, tt) refl (omega arith) (omega arith) refl

filter_hayes_commands-IsValid_example :
    (length (filter_hayes_commands 2 1000 (init 900) (b'x' ∷ 13 ∷ [])).0 ≤ 2 + 255)
    × IsValid (filter_hayes_commands 2 1000 (init 900) (b'x' ∷ 13 ∷ [])).1
filter_hayes_commands-IsValid_example =
    filter_hayes_commands-IsValid 2 1000 (init 900) (b'x' ∷ 13 ∷ [])
      (modembridge.Level3.HayesFilter.Fits.init-IsValid 900)

-- A system that takes whatever it is sent.
abbrev os : Os
os = record { send = λ log buf. sent (length buf); time = λ log. 1000 }

abbrev server : Telnet
server = record (modembridge.Telnet.State.init 0) {
  fd = some 5;
  is_connected = true;
  can_write = true;
}

abbrev idle : Chunk
idle = record {
  line = [];
  line_start_time = 0;
  multibyte = [];
  multibyte_expected = 0;
  multibyte_start_time = 0;
  source = modembridge.Cbuf.init;
  echo = modembridge.Cbuf.init;
  hayes = online;
  telnet = server;
  total_bytes_processed = 0;
  bytes_in_timeslice = 0;
  last_activity = 0;
}

server-IsReady : IsReady server
server-IsReady = record {
  open_socket = refl;
  connected = refl;
  writable = refl;
  empty = refl;
  at_start = refl;
}

chunk_bytes_forward_example :
    let k' = chunk_bytes os 1 (λ _. 1000) (stream lines) idle in
    (k'.telnet.requests ≡ server.requests ++ sent_lines lines)
    × IsReady k'.telnet
    × (k'.line ≡ [])
    × IsOnline 1000 k'.hayes []
chunk_bytes_forward_example =
    chunk_bytes_forward os 1 1000 (λ log buf. refl) lines idle lines-IsLine refl online-IsOnline
      server-IsReady

-- "a" and the Euro sign wait in the buffer from the serial port.
abbrev chars : List (List ℕ)
chars = (b'a' ∷ []) ∷ (0xe2 ∷ 0x82 ∷ 0xac ∷ []) ∷ []

abbrev filled : CircularBuffer
filled = (modembridge.Cbuf.write modembridge.Cbuf.init (b'a' ∷ 0xe2 ∷ 0x82 ∷ 0xac ∷ [])).1

process_chunk_echo_example :
    let k' = process_chunk os 1 (λ _. 1000) (record idle { source = filled }) in
    (contents k'.echo ≡ b'a' ∷ 0xe2 ∷ 0x82 ∷ 0xac ∷ []) × (k'.multibyte ≡ [])
process_chunk_echo_example =
    let (valid, _, stored) =
      contents-write modembridge.Cbuf.init (b'a' ∷ 0xe2 ∷ 0x82 ∷ 0xac ∷ []) init-IsValid in
    process_chunk_echo os 1 (λ _. 1000) (record idle { source = filled }) chars valid init-IsValid
      refl (stored ∙ unfold modembridge.Cbuf.free in refl)
      (
        (omega arith, refl, λ e. tt),
        ((omega arith, refl, λ e. ((omega arith, refl), ((omega arith, refl), tt))), tt),
      )
      (omega arith) (omega arith)

chunk_bytes_stuck_example :
    (chunk_bytes os 1 (λ _. 1000) (0xc7 ∷ 0xd1 ∷ (b'o' ∷ b'k' ∷ [])) idle).echo ≡ idle.echo
chunk_bytes_stuck_example =
    chunk_bytes_stuck 0xc7 0xd1 (omega arith) (omega arith) refl refl os 1 (λ _. 1000) idle
      (b'o' ∷ b'k' ∷ []) refl
