-- ===== src/Tests/ScheduleTests.antt =====
-- The scheduling and the enhanced buffer of src/level3.c at concrete inputs.
use modembridge.Prelude.{
  ℕ, ◌+◌, ◌*◌, ◌/◌, ◌≡◌, refl, true, false, none, some, ◌⊎◌, List, [], ◌∷◌, ltb, ◌==◌, arith,
}
use modembridge.Level3.Schedule.State.{
  Direction, serial_to_telnet, telnet_to_serial, Doubles, Schedule, get_direction_wait_time,
  is_direction_starving, init_enhanced_scheduling,
}
use modembridge.Level3.Schedule.Turn.{
  Result, chunk_success, start_quantum, is_expired, process_pipeline_with_quantum,
}
use modembridge.Level3.Schedule.Range.{InRange}
use modembridge.Level3.Schedule.Runs.{Turn, run-InRange}
use modembridge.Level3.Schedule.Starving.{process_pipeline_with_quantum_serves}
use modembridge.Level3.Schedule.Unset.{process_pipeline_with_quantum_unset}
use modembridge.Level3.Enhanced.{init}
use modembridge.Level3.Enhanced.Silent.{
  Call, write_call, read_call, resize_call, run, run_delivers_nothing,
}

-- Whole numbers in place of `double`.
abbrev whole : Doubles
whole = record {
  Double = ℕ;
  zero_ms = 0;
  of_ms = λ n. n;
  is_zero = λ n. n == 0;
  is_positive = λ n. ltb 0 n;
  blend = λ a b. (9 * a + b) / 10;
  mean_above = λ a b n. ltb (2 * n) (a + b);
  mean_below = λ a b n. ltb (a + b) (2 * n);
  ratio_above = λ a b n. ltb (n * b) (10 * a);
  ratio_below = λ a b n. ltb (10 * a) (n * b);
  tenths = λ n k. n * k / 10;
  share = λ n total. n * 10 / total;
}

-- Serial to telnet was served at 900, telnet to serial at 300.
abbrev busy : Schedule whole
busy = record {
  base_quantum_ms = 50;
  min_quantum_ms = 10;
  max_quantum_ms = 200;
  starvation_threshold_ms = 500;
  adaptive_quantum_enabled = true;
  latency_bound_ms = 0;
  serial_baudrate = 9600;
  system_start_time = 100;
  current_direction = serial_to_telnet;
  last_direction_switch_time = 900;
  consecutive_slices = 1;
  serial_starvation_time = 900;
  telnet_starvation_time = 300;
  current_quantum_ms = 50;
  start_time = 920;
  slice_bytes = 1;
  max_bytes_per_quantum = 1024;
  serial_to_telnet_avg_ms = 3;
  telnet_to_serial_avg_ms = 4;
  max_serial_to_telnet_ms = 5;
  max_telnet_to_serial_ms = 6;
  total_samples = 2;
  last_measurement_time = 900;
  serial_weight = 5;
  telnet_weight = 5;
  active_pipeline = serial_to_telnet;
  last_pipeline_switch = 0;
}

abbrev chunk : Direction → Result
chunk direction = chunk_success

abbrev turns : List Turn
turns =
    record { chunk = chunk; now = 1000; later = 1005; seconds = 1; asked = serial_to_telnet }
    ∷ record { chunk = chunk; now = 1060; later = 1070; seconds = 1; asked = telnet_to_serial }
    ∷ []

run-InRange_example :
    InRange whole 10 200
      (omega arith)
      (modembridge.Level3.Schedule.Runs.run whole turns (init_enhanced_scheduling whole 900 busy))
run-InRange_example = run-InRange whole 900 busy turns refl

process_pipeline_with_quantum_serves_example :
    let (_, processed, _) =
      process_pipeline_with_quantum whole chunk 1000 1005 1 serial_to_telnet busy in
    ((processed ≡ some telnet_to_serial) ⊎ (processed ≡ none))
    × (is_expired whole 1000 (start_quantum whole 1000 busy) ≡ true
        → processed ≡ some telnet_to_serial)
process_pipeline_with_quantum_serves_example =
    process_pipeline_with_quantum_serves whole chunk 1000 1005 1 serial_to_telnet telnet_to_serial
      busy (unfold is_direction_starving in refl) (unfold is_direction_starving in refl)

process_pipeline_with_quantum_unset_example :
    let (_, processed, _) =
      process_pipeline_with_quantum whole chunk 1000 1005 1 serial_to_telnet busy in
    (processed ≡ some telnet_to_serial) ⊎ (processed ≡ none)
process_pipeline_with_quantum_unset_example =
    process_pipeline_with_quantum_unset whole chunk 1000 1005 1 serial_to_telnet busy refl
      (unfold get_direction_wait_time in omega arith) (unfold is_direction_starving in refl)

abbrev calls : List Call
calls = write_call true 5 (1 ∷ 2 ∷ []) ∷ resize_call true 2048 ∷ read_call true 40 10 ∷ []

run_delivers_nothing_example :
    let (got, b) = run calls (init 0 4096 1024 8192) in (got ≡ []) × (b.backpressure_active ≡ false)
run_delivers_nothing_example = run_delivers_nothing 0 4096 1024 8192 calls
