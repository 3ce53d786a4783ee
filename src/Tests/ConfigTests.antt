-- ===== src/Tests/ConfigTests.antt =====
-- The configuration of src/config.c at concrete inputs.
use modembridge.Prelude.{ℕ, ◌≡◌, refl, true, false, some, List, [], ◌∷◌, ◌++◌, if◌then◌else◌}
use modembridge.Common.{success, error_config}
use modembridge.Config.Words.{flow_key, bit_data_key, rts_word}
use modembridge.Config.State.{ℤ, pos, init, validate}
use modembridge.Config.Line.{load, parse_config_line, assign, is_space}
use modembridge.Config.Line.Ranges.{IsValid, is_usable, load-IsValid}
use modembridge.Config.Line.Layout.{IsKey, entry, written, remark, parse_config_line_layout}

-- A reader of numbers that knows only "9".
abbrev atoi : List ℕ → ℤ
atoi [] = pos 0
atoi (c ∷ text) = pos (if modembridge.Prelude.◌==◌ c b'9' then 9 else 0)

-- "BIT_DATA=9" and "no setting".
abbrev lines : List (List ℕ)
lines = (bit_data_key ++ (b'=' ∷ b'9' ∷ [])) ∷ (b'n' ∷ b'o' ∷ []) ∷ []

load-IsValid_example :
    IsValid (load atoi lines init)
    × (validate (load atoi lines init)
        ≡ (if is_usable (load atoi lines init) then success else error_config))
load-IsValid_example = load-IsValid atoi lines

-- The text "FLOW" after its first letter.
abbrev low : List ℕ
low = b'L' ∷ b'O' ∷ b'W' ∷ []

flow-IsKey : IsKey b'F' low
unfolding is_space
flow-IsKey = record {
  solid = (refl, (refl, (refl, (refl, tt))));
  no_sign = (refl, (refl, (refl, (refl, tt))));
  no_comment = (refl, (refl, (refl, (refl, tt))));
}

-- " FLOW =<tab>RTS/CTS #x", without quotes.
parse_config_line_layout_example :
    parse_config_line atoi
      ((b' ' ∷ [])
        ++ entry flow_key
            (b' ' ∷ [])
            (9 ∷ [])
            (written false rts_word)
            ((b' ' ∷ []) ++ remark (some (b'x' ∷ []))))
      init
    ≡ (success, assign atoi flow_key rts_word init)
parse_config_line_layout_example =
    parse_config_line_layout atoi false (b' ' ∷ []) b'F' low (b' ' ∷ []) (9 ∷ []) rts_word
      (b' ' ∷ []) (some (b'x' ∷ [])) init flow-IsKey (space, tt) (space, tt) (tab, tt) (space, tt)
      (unfold is_space in (refl, refl, refl))
      (refl, (refl, (refl, (refl, (refl, (refl, (refl, tt)))))))
  where
    space : is_space b' ' ≡ true
    space = unfold is_space in refl

    tab : is_space 9 ≡ true
    tab = unfold is_space in refl
