-- ===== src/Tests/FilterTests.antt =====
-- The control filter and the memory pool of src/level3.c at concrete inputs.
use modembridge.Prelude.{ℕ, ◌≡◌, refl, some, true, List, [], ◌∷◌, arith, length, All}
use modembridge.Telnet.State.{Os, sent, init}
use modembridge.Telnet.Input.{process_input}
use modembridge.Level3.ControlFilter.{filter_data, filter_controls}
use modembridge.Level3.ControlFilter.Agrees.{telnet_state, filter_controls-process_input}
use modembridge.Level3.MemoryPool.{MemoryPool, cleared, alloc, free}
use modembridge.Level3.MemoryPool.Blocks.{
  Call, alloc_call, free_call, run, IsValid, IsInside, run-IsValid, init-IsValid,
}

abbrev os : Os
os = record { send = λ log buf. sent (length buf); time = λ log. 1000 }

abbrev some_input : List ℕ
some_input = b'a' ∷ 255 ∷ 251 ∷ 1 ∷ 255 ∷ 255 ∷ b'b' ∷ []

filter_controls-process_input_example :
    let (got, s') = filter_controls 20 filter_data some_input in
    let (got', tn') = process_input os (init 0) some_input 20 in
    (got ≡ got') × (tn'.state ≡ telnet_state s')
filter_controls-process_input_example =
    filter_controls-process_input os (init 0) filter_data some_input 20 refl (omega arith)

-- A pool of three blocks of 30 bytes.
abbrev pool : MemoryPool
pool = (modembridge.Level3.MemoryPool.init true true 100 30 cleared).1

abbrev calls : List Call
calls = alloc_call ∷ alloc_call ∷ free_call (some 0) ∷ alloc_call ∷ []

run-IsValid_example : IsValid (run calls pool).1 × All (IsInside pool) (run calls pool).0
run-IsValid_example = run-IsValid calls pool (init-IsValid 100 30 (omega arith) (omega arith))
