-- ===== src/Level3/Schedule/State.antt =====
-- What the scheduling of src/level3.c keeps in `l3_context_t`, and its questions about waiting.
use modembridge.Prelude.{ℕ, ◌+◌, ◌-◌, ◌*◌, ◌/◌, Bool, true, false, ltb, leb, ◌==◌, if◌then◌else◌}

-- `l3_pipeline_direction_t`.
pub data Direction : Type 0 where
  serial_to_telnet telnet_to_serial : Direction

abbrev pub other : Direction → Direction
other serial_to_telnet = telnet_to_serial
other telnet_to_serial = serial_to_telnet

abbrev pub same : Direction → Direction → Bool
same serial_to_telnet serial_to_telnet = true
same telnet_to_serial telnet_to_serial = true
same _ _ = false

-- The arithmetic of `double` that the functions need: `blend` is the moving average
-- 0.9 a + 0.1 b; `mean_above` and `mean_below` compare (a + b) / 2 with a number; `ratio_above` and
-- `ratio_below` compare a / b with a number of tenths; `tenths n k` is n times k / 10, and
-- `share n total` is n / total times 10, both cut to an `int`.
pub record Doubles : Type 1 where
  pub Double : Type 0
  pub zero_ms : Double
  pub of_ms : ℕ → Double
  pub is_zero : Double → Bool
  pub is_positive : Double → Bool
  pub blend : Double → Double → Double
  pub mean_above : Double → Double → ℕ → Bool
  pub mean_below : Double → Double → ℕ → Bool
  pub ratio_above : Double → Double → ℕ → Bool
  pub ratio_below : Double → Double → ℕ → Bool
  pub tenths : ℕ → ℕ → ℕ
  pub share : ℕ → ℕ → ℕ

module _ (d : Doubles) where
  -- `sched_config`, `sched_state`, `quantum_state`, `latency_stats` and `fair_queue`, as far as
  -- they are read, with the fields of the context that the functions touch. The largest latencies
  -- are whole numbers kept in a `double`; `slice_bytes` is `quantum_state.bytes_processed`.
  pub record Schedule : Type 0 where
    pub base_quantum_ms : ℕ
    pub min_quantum_ms : ℕ
    pub max_quantum_ms : ℕ
    pub starvation_threshold_ms : ℕ
    pub adaptive_quantum_enabled : Bool
    pub latency_bound_ms : ℕ
    pub serial_baudrate : ℕ
    pub system_start_time : ℕ
    pub current_direction : Direction
    pub last_direction_switch_time : ℕ
    pub consecutive_slices : ℕ
    pub serial_starvation_time : ℕ
    pub telnet_starvation_time : ℕ
    pub current_quantum_ms : ℕ
    pub start_time : ℕ
    pub slice_bytes : ℕ
    pub max_bytes_per_quantum : ℕ
    pub serial_to_telnet_avg_ms : d.Double
    pub telnet_to_serial_avg_ms : d.Double
    pub max_serial_to_telnet_ms : ℕ
    pub max_telnet_to_serial_ms : ℕ
    pub total_samples : ℕ
    pub last_measurement_time : ℕ
    pub serial_weight : ℕ
    pub telnet_weight : ℕ
    pub active_pipeline : Direction
    pub last_pipeline_switch : ℕ

  -- `l3_init_enhanced_scheduling` at the time `now` in milliseconds.
  unfoldable pub init_enhanced_scheduling : ℕ → Schedule → Schedule
  init_enhanced_scheduling now s = record s {
    base_quantum_ms = 50;
    min_quantum_ms = 10;
    max_quantum_ms = 200;
    starvation_threshold_ms = 500;
    adaptive_quantum_enabled = true;
    serial_to_telnet_avg_ms = d.zero_ms;
    telnet_to_serial_avg_ms = d.zero_ms;
    max_serial_to_telnet_ms = 0;
    max_telnet_to_serial_ms = 0;
    total_samples = 0;
    last_measurement_time = 0;
    current_direction = serial_to_telnet;
    last_direction_switch_time = now;
    consecutive_slices = 0;
    serial_starvation_time = now;
    telnet_starvation_time = now;
    current_quantum_ms = 50;
    start_time = 0;
    slice_bytes = 0;
    max_bytes_per_quantum = 1024;
    serial_weight = 5;
    telnet_weight = 5;
  }

  abbrev last_service : Direction → Schedule → ℕ
  last_service serial_to_telnet s = s.serial_starvation_time
  last_service telnet_to_serial s = s.telnet_starvation_time

  -- `l3_get_direction_wait_time`.
  unfoldable pub get_direction_wait_time : ℕ → Direction → Schedule → ℕ
  get_direction_wait_time now direction s =
      now
      - (if last_service direction s == 0 then s.system_start_time else last_service direction s)

  -- `l3_is_direction_starving`.
  unfoldable pub is_direction_starving : ℕ → Direction → Schedule → Bool
  is_direction_starving now direction s =
      ltb (last_service direction s + s.starvation_threshold_ms) now

  -- `l3_detect_latency_violation`.
  unfoldable pub detect_latency_violation : ℕ → Direction → Schedule → Bool
  detect_latency_violation now direction s =
      ltb (if leb s.serial_baudrate 2400 then s.latency_bound_ms * 2 else s.latency_bound_ms)
        (get_direction_wait_time now direction s)

  -- `l3_should_force_direction_switch`.
  unfoldable pub should_force_direction_switch : ℕ → Direction → Schedule → Bool
  should_force_direction_switch now direction s =
      let bound =
        if leb s.serial_baudrate 2400 then s.latency_bound_ms * 3 / 2 else s.latency_bound_ms in
      if same s.current_direction direction
      then false
      else if ltb (bound * 3 / 2) (get_direction_wait_time now direction s)
      then true
      else is_direction_starving now direction s
