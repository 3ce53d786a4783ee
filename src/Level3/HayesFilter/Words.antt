-- ===== src/Level3/HayesFilter/Words.antt =====
-- The dictionary of the Hayes filter: `hayes_commands` and `hayes_results` of src/level3.c. Of an
-- entry only the text is read, and of a result the flag `ends_command_mode`.
use modembridge.Prelude.{ℕ, Bool, true, false, List, [], ◌∷◌}

abbrev pub hayes_commands : List (List ℕ)
hayes_commands =
    (b'A' ∷ b'T' ∷ b'A' ∷ [])
    ∷ (b'A' ∷ b'T' ∷ b'B' ∷ [])
    ∷ (b'A' ∷ b'T' ∷ b'D' ∷ [])
    ∷ (b'A' ∷ b'T' ∷ b'E' ∷ [])
    ∷ (b'A' ∷ b'T' ∷ b'H' ∷ [])
    ∷ (b'A' ∷ b'T' ∷ b'I' ∷ [])
    ∷ (b'A' ∷ b'T' ∷ b'L' ∷ [])
    ∷ (b'A' ∷ b'T' ∷ b'M' ∷ [])
    ∷ (b'A' ∷ b'T' ∷ b'O' ∷ [])
    ∷ (b'A' ∷ b'T' ∷ b'Q' ∷ [])
    ∷ (b'A' ∷ b'T' ∷ b'S' ∷ [])
    ∷ (b'A' ∷ b'T' ∷ b'V' ∷ [])
    ∷ (b'A' ∷ b'T' ∷ b'X' ∷ [])
    ∷ (b'A' ∷ b'T' ∷ b'Z' ∷ [])
    ∷ (b'A' ∷ b'T' ∷ b'&' ∷ b'C' ∷ [])
    ∷ (b'A' ∷ b'T' ∷ b'&' ∷ b'D' ∷ [])
    ∷ (b'A' ∷ b'T' ∷ b'&' ∷ b'F' ∷ [])
    ∷ (b'A' ∷ b'T' ∷ b'&' ∷ b'V' ∷ [])
    ∷ (b'A' ∷ b'T' ∷ b'&' ∷ b'W' ∷ [])
    ∷ (b'A' ∷ b'T' ∷ b'&' ∷ b'S' ∷ [])
    ∷ (b'+' ∷ b'+' ∷ b'+' ∷ [])
    ∷ []

abbrev pub hayes_results : List (List ℕ × Bool)
hayes_results =
    (b'O' ∷ b'K' ∷ [], false)
    ∷ (b'E' ∷ b'R' ∷ b'R' ∷ b'O' ∷ b'R' ∷ [], false)
    ∷ (b'C' ∷ b'O' ∷ b'N' ∷ b'N' ∷ b'E' ∷ b'C' ∷ b'T' ∷ [], true)
    ∷ (b'N' ∷ b'O' ∷ b' ' ∷ b'C' ∷ b'A' ∷ b'R' ∷ b'R' ∷ b'I' ∷ b'E' ∷ b'R' ∷ [], false)
    ∷ (b'N' ∷ b'O' ∷ b' ' ∷ b'D' ∷ b'I' ∷ b'A' ∷ b'L' ∷ b'T' ∷ b'O' ∷ b'N' ∷ b'E' ∷ [], false)
    ∷ (b'B' ∷ b'U' ∷ b'S' ∷ b'Y' ∷ [], false)
    ∷ (b'N' ∷ b'O' ∷ b' ' ∷ b'A' ∷ b'N' ∷ b'S' ∷ b'W' ∷ b'E' ∷ b'R' ∷ [], false)
    ∷ (b'R' ∷ b'I' ∷ b'N' ∷ b'G' ∷ [], false)
    ∷ (b'D' ∷ b'E' ∷ b'L' ∷ b'A' ∷ b'Y' ∷ b'E' ∷ b'D' ∷ [], false)
    ∷ (b'B' ∷ b'L' ∷ b'A' ∷ b'C' ∷ b'K' ∷ b'L' ∷ b'I' ∷ b'S' ∷ b'T' ∷ b'E' ∷ b'D' ∷ [], false)
    ∷ []
