-- ===== src/Level3/ControlFilter.antt =====
-- `l3_filter_telnet_controls` of src/level3.c: telnet commands taken out of a stream.
pub mod Agrees
use modembridge.Prelude.{ℕ, true, false, List, [], ◌∷◌, ◌++◌, ltb, ◌==◌, length, if◌then◌else◌}

-- `telnet_filter_state_t`.
pub data FilterState : Type 0 where
  filter_data filter_iac filter_will filter_wont filter_do filter_dont : FilterState
  filter_sb filter_sb_data : FilterState

-- What one byte does to the state.
unfoldable pub next : FilterState → ℕ → FilterState
next filter_data c = if c == 0xff then filter_iac else filter_data
next filter_iac c =
    if c == 0xff
    then filter_data
    else if c == 0xfb
    then filter_will
    else if c == 0xfc
    then filter_wont
    else if c == 0xfd
    then filter_do
    else if c == 0xfe
    then filter_dont
    else if c == 0xfa
    then filter_sb
    else filter_data
next filter_sb c = if c == 0xff then filter_sb_data else filter_sb
next filter_sb_data c = if c == 0xf0 then filter_data else filter_sb
next _ c = filter_data

-- What one byte adds to the output; the loop has made sure of a byte of room.
unfoldable pub emit : FilterState → ℕ → List ℕ
emit filter_data c = if c == 0xff then [] else c ∷ []
emit filter_iac c = if c == 0xff then c ∷ [] else []
emit _ c = []

-- The loop, which also ends where the output is full.
unfoldable pub filter_controls_from : ℕ → FilterState → List ℕ → List ℕ → List ℕ × FilterState
filter_controls_from output_size state out [] = (out, state)
filter_controls_from output_size state out (c ∷ cs) =
    let rest = filter_controls_from output_size (next state c) (out ++ emit state c) cs in
    if ltb (length out) output_size then rest else (out, state)

-- The output, and the state that is kept for the next call.
unfoldable pub filter_controls : ℕ → FilterState → List ℕ → List ℕ × FilterState
unfolding filter_controls_from next emit
filter_controls output_size state input = filter_controls_from output_size state [] input
