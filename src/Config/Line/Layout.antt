-- ===== src/Config/Line/Layout.antt =====
-- How a line of the configuration file is laid out, for `parse_config_line` of src/config.c.
use modembridge.Prelude.{
  ℕ, ◌≡◌, refl, sym, ap, ap₂, ◌∙◌, Bool, true, false, Option, none, some, List, [], ◌∷◌, ◌++◌,
  arith, ◌==◌, append-nil, append_assoc,
}
use modembridge.Common.{success}
use modembridge.Config.State.{ℤ, Config}
use modembridge.Config.Line.{
  is_space, before, behind, trim_left, trim_right, trim_whitespace, without_last, unquote, assign,
  parse_trimmed, parse_config_line, unquoted,
}
use modembridge.Config.Line.Trim.{
  Blank, Without, Solid, before-append, behind-append, trim_left-append, trim_left_solid,
  trim_right_last, Kept, append-Kept, trim_key, unquote_quoted,
}

-- A text whose last byte is no blank.
abbrev pub Ends : List ℕ → Type 0
Ends [] = ⊥
Ends (x ∷ []) = is_space x ≡ false
Ends (x ∷ y ∷ ys) = Ends (y ∷ ys)

-- A value that needs no quotes: it begins with neither a blank nor a quote and ends with no blank.
abbrev IsBare : List ℕ → Type 0
IsBare [] = ⊥
IsBare (x ∷ xs) = (is_space x ≡ false) × ((x == 34) ≡ false) × Ends (x ∷ xs)

-- The value as it stands in the line, with or without quotes.
abbrev pub written : Bool → List ℕ → List ℕ
written true value = 34 ∷ (value ++ (34 ∷ []))
written false value = value

abbrev IsWritten : Bool → List ℕ → Type 0
IsWritten true value = Unit
IsWritten false value = IsBare value

-- A comment, or none.
abbrev pub remark : Option (List ℕ) → List ℕ
remark none = []
remark (some text) = b'#' ∷ text

-- Blanks behind it are cut off.
Ends-Kept : (xs d : List ℕ) → Ends xs → Blank d → Kept (xs ++ d) xs
Ends-Kept [] d h b = elim h [ ]
Ends-Kept (x ∷ []) d h b = (trim_right_last x d h b, refl)
Ends-Kept (x ∷ y ∷ ys) d h b = append-Kept (x ∷ []) _ _ (Ends-Kept (y ∷ ys) d h b)

Ends-append : (xs : List ℕ) (x : ℕ) → is_space x ≡ false → Ends (xs ++ x ∷ [])
Ends-append [] x h = h
Ends-append (y ∷ []) x h = h
Ends-append (y ∷ z ∷ zs) x h = Ends-append (z ∷ zs) x h

-- What a value in the line is to the parser.
record IsText (text value : List ℕ) : Type 0 where
  first : ℕ
  rest : List ℕ
  text_is : text ≡ first ∷ rest
  solid : is_space first ≡ false
  ends : Ends text
  read : unquote text ≡ value

unquote_bare : (x : ℕ) (xs : List ℕ) → (x == 34) ≡ false → unquote (x ∷ xs) ≡ x ∷ xs
unfolding unquote
unquote_bare x [] h = rw h refl
unquote_bare x (y ∷ ys) h = by_rest (without_last (y ∷ ys))
  where
    by_rest : (o : Option (List ℕ)) → unquoted x (y ∷ ys) o ≡ x ∷ y ∷ ys
    by_rest none = unfold unquoted in refl
    by_rest (some rest) = unfold unquoted in rw h refl

written-IsText : (q : Bool) (value : List ℕ) → IsWritten q value → IsText (written q value) value
written-IsText true value h = record {
  first = 34;
  rest = value ++ (34 ∷ []);
  text_is = refl;
  solid = unfold is_space in refl;
  ends = Ends-append (34 ∷ value) 34 (unfold is_space in refl);
  read = unquote_quoted value;
}
written-IsText false [] h = elim h [ ]
written-IsText false (x ∷ xs) (solid, no_quote, ends) = record {
  first = x;
  rest = xs;
  text_is = refl;
  solid = solid;
  ends = ends;
  read = unquote_bare x xs no_quote;
}

written-Without : (q : Bool) (value : List ℕ) → Without b'#' value → Without b'#' (written q value)
written-Without true value h = (refl, quoted value h)
  where
    quoted : (xs : List ℕ) → Without b'#' xs → Without b'#' (xs ++ 34 ∷ [])
    quoted [] h = (refl, tt)
    quoted (x ∷ xs) (e, h) = (e, quoted xs h)
written-Without false value h = h

-- From the key on to the end of the value, with what follows.
abbrev pub entry : List ℕ → List ℕ → List ℕ → List ℕ → List ℕ → List ℕ
entry key b c text rest = key ++ (b ++ (b'=' ∷ (c ++ (text ++ rest))))

before-remark : (d : List ℕ) (r : Option (List ℕ)) → d ++ before b'#' (remark r) ≡ d
unfolding before
before-remark d none = append-nil d
before-remark d (some text) = append-nil d

before_comment :
    (a key b c text d : List ℕ) (r : Option (List ℕ))
    → Without b'#' a
    → Without b'#' key
    → Without b'#' b
    → Without b'#' c
    → Without b'#' text
    → Without b'#' d
    → before b'#' (a ++ entry key b c text (d ++ remark r)) ≡ a ++ entry key b c text d
before_comment a key b c text d r ha hk hb hc ht hd =
    before-append b'#' a _ ha
    ∙ ap (λ t. a ++ t)
        (before-append b'#' key _ hk
          ∙ ap (λ t. key ++ t)
              (before-append b'#' b _ hb
                ∙ ap (λ t. b ++ t)
                    (before-append b'#' (b'=' ∷ c) _ (refl, hc)
                      ∙ ap (λ t. b'=' ∷ (c ++ t))
                          (before-append b'#' text _ ht
                            ∙ ap (λ t. text ++ t)
                                (before-append b'#' d _ hd ∙ before-remark d r)))))

trim_entry :
    (a : List ℕ) (k : ℕ) (key b c text d : List ℕ)
    → Blank a
    → is_space k ≡ false
    → Ends text
    → Blank d
    → trim_whitespace (a ++ entry (k ∷ key) b c text d) ≡ entry (k ∷ key) b c text []
unfolding trim_whitespace
trim_entry a k key b c text d ha hk ht hd =
    let kept =
      append-Kept (k ∷ key) _ _
        (append-Kept b _ _ (append-Kept (b'=' ∷ c) _ _ (Ends-Kept text d ht hd))) in
    ap trim_right (trim_left-append a _ ha ∙ trim_left_solid k _ hk)
    ∙ kept.0
    ∙ ap (λ t. (k ∷ key) ++ (b ++ (b'=' ∷ (c ++ t)))) (sym (append-nil text))

-- The parts of the line about its sign.
entry_key :
    (key b c text : List ℕ)
    → Without b'=' key
    → Without b'=' b
    → before b'=' (entry key b c text []) ≡ key ++ b
entry_key key b c text hk hb =
    before-append b'=' key _ hk
    ∙ ap (λ t. key ++ t) (before-append b'=' b _ hb ∙ at_sign b (c ++ (text ++ [])))
  where
    at_sign : (b rest : List ℕ) → b ++ before b'=' (b'=' ∷ rest) ≡ b
    at_sign b rest = unfold before in append-nil b

entry_value :
    (key b c text : List ℕ)
    → Without b'=' key
    → Without b'=' b
    → behind b'=' (entry key b c text []) ≡ some (c ++ (text ++ []))
entry_value key b c text hk hb =
    ap (behind b'=') (sym (append_assoc key b _))
    ∙ behind-append b'=' (key ++ b) _ (both key b hk hb)
  where
    both : (xs ys : List ℕ) → Without b'=' xs → Without b'=' ys → Without b'=' (xs ++ ys)
    both [] ys h k = k
    both (x ∷ xs) ys (e, h) k = (e, both xs ys h k)

trim_value :
    (c text value : List ℕ)
    → Blank c
    → IsText text value
    → trim_whitespace (c ++ (text ++ [])) ≡ text
unfolding trim_whitespace
trim_value c text value hc h =
    ap trim_right (
      trim_left-append c _ hc
      ∙ ap (λ t. trim_left (t ++ [])) h.text_is
      ∙ trim_left_solid h.first _ h.solid
      ∙ ap (λ t. t ++ []) (sym h.text_is))
    ∙ (Ends-Kept text [] h.ends tt).0

-- A blank is neither sign.
Blank-Without : (stop : ℕ) (xs : List ℕ) → is_space stop ≡ false → Blank xs → Without stop xs
Blank-Without stop [] h b = tt
Blank-Without stop (x ∷ xs) h (e, b) = (ground arith, Blank-Without stop xs h b)

-- The three conditions on a key.
pub record IsKey (k : ℕ) (key : List ℕ) : Type 0 where
  pub solid : Solid (k ∷ key)
  pub no_sign : Without b'=' (k ∷ key)
  pub no_comment : Without b'#' (k ∷ key)

-- Blanks before, between and behind, quotes around the value and a comment do not matter: of a key
-- that is not empty and has no blank, no `=` and no `#`, and a value without `#`, the line sets just
-- that key to just that value, whether or not the value stands in quotes and whether or not a comment
-- follows. A value without quotes is not empty, begins with neither a blank nor a quote, and ends
-- with no blank.
pub parse_config_line_layout :
    (atoi : List ℕ → ℤ) (q : Bool) (a : List ℕ) (k : ℕ) (key b c value d : List ℕ)
    (r : Option (List ℕ)) (cfg : Config)
    → IsKey k key
    → Blank a
    → Blank b
    → Blank c
    → Blank d
    → IsWritten q value
    → Without b'#' value
    → parse_config_line atoi (a ++ entry (k ∷ key) b c (written q value) (d ++ remark r)) cfg
      ≡ (success, assign atoi (k ∷ key) value cfg)
unfolding parse_config_line parse_trimmed trim_whitespace
parse_config_line_layout atoi q a k key b c value d r cfg i ha hb hc hd hw hv =
    let mark : is_space b'#' ≡ false = unfold is_space in refl in
    let sign : is_space b'=' ≡ false = unfold is_space in refl in
    let free = λ (xs : List ℕ) (h : Blank xs). Blank-Without b'#' xs mark h in
    let text = written q value in
    let is_text = written-IsText q value hw in
    let plain =
      before_comment a (k ∷ key) b c text d r (free a ha) i.no_comment (free b hb) (free c hc)
        (written-Without q value hv) (free d hd) in
    let trimmed =
      ap trim_whitespace plain ∙ trim_entry a k key b c text d ha i.solid.0 is_text.ends hd in
    let no_sign = Blank-Without b'=' b sign hb in
    ap (λ t. parse_trimmed atoi t (behind b'=' t) cfg) trimmed
    ∙ (ap (λ o. parse_trimmed atoi (entry (k ∷ key) b c text []) o cfg)
          (entry_value (k ∷ key) b c text i.no_sign no_sign)
        ∙ ap₂ (λ x y. (success, assign atoi x y cfg))
            (ap trim_whitespace (entry_key (k ∷ key) b c text i.no_sign no_sign)
              ∙ (ap trim_right (trim_left_solid k (key ++ b) i.solid.0)
                  ∙ trim_key k key b i.solid hb))
            (ap unquote (trim_value c text value hc is_text) ∙ is_text.read))
