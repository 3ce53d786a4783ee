-- ===== src/Tests/TextTests.antt =====
-- The UTF-8 classes and the ANSI filter of src/bridge.c at concrete inputs.
use modembridge.Prelude.{◌≡◌, refl, [], ◌∷◌, ◌++◌}
use modembridge.Text.Ansi.{normal, filter}
use modembridge.Text.Ansi.Sequences.{filter_csi}

-- "ab", ESC [ 3 1 m, "c".
coloured :
    filter 10 normal (b'a' ∷ 0x1b ∷ b'[' ∷ b'3' ∷ b'1' ∷ b'm' ∷ b'c' ∷ [])
    ≡ (b'a' ∷ b'c' ∷ [], normal)
unfolding filter modembridge.Text.Ansi.next modembridge.Text.Ansi.emit
coloured = refl

filter_csi_example :
    filter 10 normal ((b'a' ∷ []) ++ (0x1b ∷ b'[' ∷ ((b'2' ∷ []) ++ b' ' ∷ b'q' ∷ [])))
    ≡ filter 10 normal ((b'a' ∷ []) ++ b'q' ∷ [])
filter_csi_example =
    filter_csi 10 (b'a' ∷ []) (b'2' ∷ []) b' ' (b'q' ∷ []) (refl, tt) (refl, tt) refl
