-- ===== src/Text/Ansi.antt =====
-- `ansi_filter_modem_to_telnet` of src/bridge.c.
pub mod Sequences
use modembridge.Prelude.{ℕ, Bool, ◌&&◌, List, [], ◌∷◌, ◌++◌, ltb, leb, ◌==◌, length, if◌then◌else◌}

-- `ansi_state_t`.
pub data AnsiState : Type 0 where
  normal esc csi csi_param : AnsiState

abbrev pub is_param : ℕ → Bool
is_param c = leb 0x30 c && leb c 0x3f

-- What one byte does to the state.
unfoldable pub next : AnsiState → ℕ → AnsiState
next normal c = if c == 0x1b then esc else normal
next esc c = if c == b'[' then csi else normal
next csi c = if is_param c then csi_param else normal
next csi_param c = if is_param c then csi_param else normal

-- What one byte does to the output, which holds `output_size` bytes at most.
unfoldable pub emit : ℕ → AnsiState → List ℕ → ℕ → List ℕ
emit output_size normal out c =
    if c == 0x1b then out else if ltb (length out) output_size then out ++ c ∷ [] else out
emit output_size _ out c = out

-- The loop, with the state and the output so far.
unfoldable pub filter_from : ℕ → AnsiState → List ℕ → List ℕ → List ℕ × AnsiState
filter_from output_size state out [] = (out, state)
filter_from output_size state out (c ∷ cs) =
    filter_from output_size (next state c) (emit output_size state out c) cs

-- The output, and the state that is handed on to the next call.
unfoldable pub filter : ℕ → AnsiState → List ℕ → List ℕ × AnsiState
unfolding filter_from
filter output_size state input = filter_from output_size state [] input
