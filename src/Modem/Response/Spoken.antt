-- ===== src/Modem/Response/Spoken.antt =====
-- What `modem_send_response` of src/modem.c writes, for a modem that speaks in words.
use modembridge.Prelude.{
  ℕ, zero, suc, ◌/◌, ◌%◌, ◌+◌, ◌≤◌, ◌≡◌, refl, sym, subst, true, false, List, [], ◌∷◌, ◌++◌, arith,
  length, length-append, take_more, Bool-cases, inl, inr, if◌then◌else◌, ◌==◌,
}
use modembridge.Modem.State.{Modem, Settings, Serial, Action, write}
use modembridge.Modem.Response.{
  same, ok_text, digits, decimal, numeric_code, is_reduced, filter_result_code, framed,
  send_filtered, send_response, serial_write,
}

-- The text as a line of its own.
abbrev pub line : List ℕ → Action
line text = write (13 ∷ 10 ∷ (text ++ 13 ∷ 10 ∷ []))

-- The modem with one more call of the serial port.
abbrev pub did : Action → Modem → Modem
did action m = record m { actions = action ∷ m.actions }

pub send_response_line :
    (serial : Serial) (c : ℕ) (text : List ℕ) (m : Modem)
    → m.settings.quiet ≡ false
    → m.settings.verbose ≡ true
    → is_reduced m.settings.result_mode (c ∷ text) ≡ false
    → length (c ∷ text) ≤ 251
    → (send_response serial (c ∷ text) m).1 ≡ did (line (c ∷ text)) m
unfolding send_response filter_result_code send_filtered serial_write framed
send_response_line serial c text m q v r l =
    let size = length-append text (13 ∷ 10 ∷ []) in
    rw
      (
        q,
        v,
        r,
        take_more 254 text (omega (arith, l)),
        take_more 252 (text ++ 13 ∷ 10 ∷ []) (omega (arith, l, size)),
      )
      refl

-- A text that begins with a digit is no result code, and `OK` is never replaced.
is_reduced_digit : (mode c : ℕ) (text : List ℕ) → c ≤ 57 → is_reduced mode (c ∷ text) ≡ false
unfolding is_reduced same
is_reduced_digit mode c text h = ground arith

pub is_reduced_ok : (mode : ℕ) → is_reduced mode ok_text ≡ false
unfolding is_reduced same
is_reduced_ok mode = ground arith

-- A text that begins with a digit.
pub record IsNumeral (text : List ℕ) : Type 0 where
  pub first : ℕ
  pub rest : List ℕ
  pub text_is : text ≡ first ∷ rest
  pub first_is : first ≤ 57

digits-IsNumeral : (fuel n : ℕ) (tail : List ℕ) → IsNumeral tail → IsNumeral (digits fuel n tail)
unfolding digits
digits-IsNumeral zero n tail h = h
digits-IsNumeral (suc fuel) n tail h =
    let more : IsNumeral ((48 + n % 10) ∷ tail) = record {
      first = 48 + n % 10;
      rest = tail;
      text_is = refl;
      first_is = omega arith;
    } in
    elim (Bool-cases (n / 10 == 0)) [
      | inl e ↦ rw e more
      | inr e ↦ rw e (digits-IsNumeral fuel (n / 10) ((48 + n % 10) ∷ tail) more)
    ]

pub decimal-IsNumeral : (n : ℕ) → IsNumeral (decimal n)
unfolding decimal digits
decimal-IsNumeral n =
    let more : IsNumeral ((48 + n % 10) ∷ []) = record {
      first = 48 + n % 10;
      rest = [];
      text_is = refl;
      first_is = omega arith;
    } in
    elim (Bool-cases (n / 10 == 0)) [
      | inl e ↦ rw e more
      | inr e ↦ rw e (digits-IsNumeral 9 (n / 10) ((48 + n % 10) ∷ []) more)
    ]

pub send_response_numeral :
    (serial : Serial) (text : List ℕ) (m : Modem)
    → m.settings.quiet ≡ false
    → m.settings.verbose ≡ true
    → IsNumeral text
    → length text ≤ 251
    → (send_response serial text m).1 ≡ did (line text) m
send_response_numeral serial text m q v h l =
    subst (λ t. length t ≤ 251 → (send_response serial t m).1 ≡ did (line t) m) (sym h.text_is)
      (λ k.
        send_response_line serial h.first h.rest m q v
          (is_reduced_digit m.settings.result_mode h.first h.rest h.first_is) k)
      l

-- `OK`, as the settings have it: not at all, in words or as its code.
abbrev pub said_ok : Settings → List Action
said_ok s =
    if s.quiet
    then []
    else if s.verbose
    then line (b'O' ∷ b'K' ∷ []) ∷ []
    else line (b'0' ∷ []) ∷ []

pub send_response_ok :
    (serial : Serial) (m : Modem)
    → (send_response serial ok_text m).1 ≡ record m { actions = said_ok m.settings ++ m.actions }
unfolding send_response filter_result_code send_filtered serial_write framed numeric_code same
    decimal digits
send_response_ok serial m = elim (Bool-cases m.settings.quiet) [
  | inl q ↦ rw q refl
  | inr q ↦ elim (Bool-cases m.settings.verbose) [
    | inl v ↦ rw (q, v, is_reduced_ok m.settings.result_mode) refl
    | inr v ↦ rw (q, v) refl
  ]
]
