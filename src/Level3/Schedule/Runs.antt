-- ===== src/Level3/Schedule/Runs.antt =====
-- Many turns of the scheduling of src/level3.c, from its initialisation on.
use modembridge.Prelude.{ℕ, ◌≡◌, refl, List, [], ◌∷◌, arith}
use modembridge.Level3.Schedule.State.{
  Direction, serial_to_telnet, Doubles, Schedule, init_enhanced_scheduling,
}
use modembridge.Level3.Schedule.Turn.{Result, process_pipeline_with_quantum}
use modembridge.Level3.Schedule.Range.{InRange, process_pipeline_with_quantum-InRange}

-- A turn: what the chunk returns, the clock in milliseconds before and behind it and in seconds,
-- and the direction that is asked for.
pub record Turn : Type 0 where
  pub chunk : Direction → Result
  pub now : ℕ
  pub later : ℕ
  pub seconds : ℕ
  pub asked : Direction

module _ (d : Doubles) where
  -- The state behind the turns.
  unfoldable pub run : List Turn → Schedule d → Schedule d
  run [] s = s
  run (t ∷ ts) s =
      run ts (process_pipeline_with_quantum d t.chunk t.now t.later t.seconds t.asked s).2

  run_from :
      (ts : List Turn) (s : Schedule d)
      → InRange d 10 200 (omega arith) s
      → InRange d 10 200 (omega arith) (run ts s)
  unfolding run
  run_from [] s h = h
  run_from (t ∷ ts) s h = run_from ts _ (
      process_pipeline_with_quantum-InRange d 10 200 (omega arith) t.chunk t.now t.later t.seconds
        t.asked s h)

  -- From its initialisation on, with the pipeline from serial to telnet active, the scheduling
  -- keeps through any number of turns a quantum from 10 to 200 milliseconds, weights that make ten,
  -- and the active pipeline in agreement with the current direction, whatever the clock shows and
  -- the processing of the chunks returns.
  pub run-InRange :
      (start : ℕ) (s : Schedule d) (ts : List Turn)
      → s.active_pipeline ≡ serial_to_telnet
      → InRange d 10 200 (omega arith) (run ts (init_enhanced_scheduling d start s))
  unfolding init_enhanced_scheduling
  run-InRange start s ts active = run_from ts (init_enhanced_scheduling d start s) (record {
    lowest = refl;
    highest = refl;
    above = omega arith;
    below = omega arith;
    ten = refl;
    agree = active;
  })
