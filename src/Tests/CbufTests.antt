-- ===== src/Tests/CbufTests.antt =====
-- The circular buffer of src/bridge.c at concrete inputs.
use modembridge.Prelude.{◌≡◌, List, [], ◌∷◌}
use modembridge.Cbuf.{init}
use modembridge.Cbuf.Invariant.{init-IsValid}
use modembridge.Cbuf.Trace.{
  Call, write_call, read_call, available_call, is_empty_call, clear_call, run, run_queue,
  run-run_queue,
}

abbrev calls : List Call
calls =
    write_call (1 ∷ 2 ∷ 3 ∷ [])
    ∷ read_call 2
    ∷ available_call
    ∷ write_call (4 ∷ [])
    ∷ read_call 9
    ∷ is_empty_call
    ∷ clear_call
    ∷ []

run-run_queue_example : run init calls ≡ run_queue [] calls
run-run_queue_example = run-run_queue calls init init-IsValid
