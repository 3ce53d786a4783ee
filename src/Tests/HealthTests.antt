-- ===== src/Tests/HealthTests.antt =====
-- The buffers, the keep-alive and the error handling of src/telnet.c at concrete inputs.
use modembridge.Prelude.{
  ℕ, ◌+◌, ◌≡◌, refl, true, false, some, List, [], ◌∷◌, ◌++◌, arith, All, min, length, leb,
}
use modembridge.Common.{success, error_io}
use modembridge.Telnet.State.{Os, Telnet, sent, init}
use modembridge.Telnet.Queue.Order.{
  IsCompact, Call, queue_call, flush_call, run, stream, stream-run,
}
use modembridge.Telnet.Send.{received}
use modembridge.Telnet.Input.Stream.{decode}
use modembridge.Telnet.Reads.{process_reads}
use modembridge.Telnet.Reads.Whole.{process_reads-decode, process_reads_loses}
use modembridge.Telnet.Health.{broken, other_errno, should_reconnect}
use modembridge.Telnet.Health.Recovery.{Failure, handle_failures, handle_failures_reconnect}
use modembridge.Telnet.Health.KeepAlive.{Check, check_all, IsKept, check_all_succeeds}

-- A system that takes two bytes at a time.
abbrev slow : Os
slow = record { send = λ log buf. sent (min 2 (length buf)); time = λ log. 1000 }

abbrev writable : Telnet
writable = record (init 0) { fd = some 5; is_connected = true; can_write = true }

abbrev calls : List Call
calls = queue_call (1 ∷ 2 ∷ 3 ∷ []) ∷ flush_call ∷ queue_call (4 ∷ []) ∷ flush_call ∷ []

-- Four bytes are accepted and taken, in two portions.
portions :
    ((run slow calls writable).0 ≡ 1 ∷ 2 ∷ 3 ∷ 4 ∷ [])
    × ((run slow calls writable).1.requests ≡ (1 ∷ 2 ∷ 3 ∷ []) ∷ (3 ∷ 4 ∷ []) ∷ [])
unfolding run modembridge.Telnet.Queue.Order.call modembridge.Telnet.Queue.queue_write
    modembridge.Telnet.Queue.flush_writes modembridge.Telnet.Queue.after_flush
    modembridge.Telnet.Queue.settle modembridge.Telnet.Send.update_activity
portions = (refl, refl)

stream-run_example :
    let (accepted, t) = run slow calls writable in
    IsCompact t
    × (stream slow [] t.requests ++ t.write_buf
        ≡ (stream slow [] writable.requests ++ writable.write_buf) ++ accepted)
stream-run_example = stream-run slow calls writable (record { at_start = refl; fits = omega arith })

abbrev readable : Telnet
readable = record (init 0) { fd = some 5; is_connected = true; can_read = true; read_buf = 7 ∷ [] }

process_reads-decode_example : process_reads slow 10 (received 8 (255 ∷ 255 ∷ [])) readable ≡ (
  success,
  (decode slow readable (7 ∷ 8 ∷ 255 ∷ 255 ∷ [])).0,
  record (decode slow readable (7 ∷ 8 ∷ 255 ∷ 255 ∷ [])).1 { read_pos = 0; read_buf = [] },
)
process_reads-decode_example =
    process_reads-decode slow 10 readable 8 (255 ∷ 255 ∷ []) refl refl refl (omega arith)

process_reads_loses_example :
    process_reads slow 1 (received 8 (9 ∷ [])) (record readable { read_buf = [] }) ≡ (
      success,
      [],
      record (decode slow (record readable { read_buf = [] }) (8 ∷ 9 ∷ [])).1 {
        read_pos = 0;
        read_buf = [];
      },
    )
unfolding decode modembridge.Telnet.Input.step
process_reads_loses_example =
    process_reads_loses slow 1 (record readable { read_buf = [] }) 8 (9 ∷ []) refl refl refl refl
      (omega arith) (omega arith)

abbrev failure : ℕ → Failure
failure now = record { at = now; errno = other_errno; code = error_io }

-- Three errors, ten seconds apart.
handle_failures_reconnect_example :
    let t = handle_failures (failure 100 ∷ failure 110 ∷ failure 120 ∷ []) writable in
    (t.is_connected ≡ false) × ((now : ℕ) → should_reconnect now t ≡ leb (120 + 10) now)
handle_failures_reconnect_example =
    handle_failures_reconnect (failure 100) (failure 110 ∷ failure 120 ∷ []) writable
      (((λ e. cc), omega arith), (((λ e. cc), omega arith), (((λ e. cc), omega arith), tt))) refl
      (omega arith)

abbrev at_time : ℕ → Check
at_time now = record {
  now = now;
  os = record { send = λ log buf. sent (length buf); time = λ log. now };
}

-- Calls every minute for five minutes, without a byte from the server.
abbrev checks : List Check
checks = at_time 60 ∷ at_time 120 ∷ at_time 180 ∷ at_time 240 ∷ at_time 300 ∷ []

check_all_succeeds_example : All (λ status. status ≡ success) (check_all checks writable)
check_all_succeeds_example =
    check_all_succeeds 90 0 checks writable
      (answers 60, (answers 120, (answers 180, (answers 240, (answers 300, tt)))))
      (omega arith, (omega arith, (omega arith, (omega arith, (omega arith, tt)))))
      (record {
        opened = refl;
        connected = refl;
        enabled = refl;
        early = omega arith;
        pinged = omega arith;
        active = omega arith;
      })
  where
    answers : (now : ℕ) → modembridge.Telnet.Health.KeepAlive.Answers (at_time now)
    answers now = record { on_time = λ log. refl; sends = λ log buf e. cc }
