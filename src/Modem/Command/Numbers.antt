-- ===== src/Modem/Command/Numbers.antt =====
-- Numbers and texts in the command line of `modem_process_command` of src/modem.c.
use modembridge.Prelude.{
  ℕ, zero, suc, ◌+◌, ◌*◌, ◌/◌, ◌%◌, ◌^◌, ◌≤◌, ◌<◌, ◌≡◌, refl, ap, ◌∙◌, false, some, List, [], ◌∷◌,
  ◌++◌, arith, length, All, Bool-cases, inl, inr, ◌==◌, ap₂,
}
use modembridge.Modem.State.{int_bound}
use modembridge.Modem.Response.{digits, decimal}
use modembridge.Modem.Command.{number, is_digit, upper_from, to_upper}

-- A digit moves from the number to the text.
number_digit :
    (acc d : ℕ) (p : List ℕ)
    → d < 10
    → acc * 10 + d < int_bound
    → number acc ((48 + d) ∷ p) ≡ number (acc * 10 + d) p
unfolding number is_digit
number_digit acc d p h b = ground arith

-- Reading the digits of a number in front of a text.
number-digits :
    (fuel n : ℕ) (tail : List ℕ)
    → n < 10 ^ fuel
    → n < int_bound
    → number 0 (digits fuel n tail) ≡ number n tail
unfolding digits
number-digits zero n tail h b = ap (λ k. number k tail) (omega (arith, h))
number-digits (suc fuel) n tail h b =
    let last = (48 + n % 10) ∷ tail in
    elim (Bool-cases (n / 10 == 0)) [
      | inl e ↦ rw e (
          number_digit 0 (n % 10) tail (omega arith) (omega (arith, b))
          ∙ ap (λ k. number k tail) (ground (arith, e)))
      | inr e ↦ rw e (
          number-digits fuel (n / 10) last (omega (arith, h)) (omega (arith, b))
          ∙ (number_digit (n / 10) (n % 10) tail (omega arith) (omega (arith, b))
              ∙ ap (λ k. number k tail) (omega arith)))
    ]

digits-append :
    (fuel n : ℕ) (tail more : List ℕ) → digits fuel n tail ++ more ≡ digits fuel n (tail ++ more)
unfolding digits
digits-append zero n tail more = refl
digits-append (suc fuel) n tail more = elim (Bool-cases (n / 10 == 0)) [
  | inl e ↦ rw e refl
  | inr e ↦ rw e (digits-append fuel (n / 10) ((48 + n % 10) ∷ tail) more)
]

-- A printed number is read back, up to a byte that is no digit.
pub number-decimal :
    (n c : ℕ) (p : List ℕ)
    → n < int_bound
    → is_digit c ≡ false
    → number 0 (decimal n ++ (c ∷ p)) ≡ some (n, c ∷ p)
unfolding decimal number
number-decimal n c p b d =
    ap (number 0) (digits-append 10 n [] (c ∷ p))
    ∙ (number-digits 10 n (c ∷ p) (omega (arith, b)) b ∙ (rw d refl))

-- Bytes that `toupper` keeps and that end no string.
abbrev pub Plain : List ℕ → Type 0
Plain = All (λ c. (to_upper c ≡ c) × ((c == 0) ≡ false))

pub digits-Plain : (fuel n : ℕ) (tail : List ℕ) → Plain tail → Plain (digits fuel n tail)
unfolding digits to_upper
digits-Plain zero n tail h = h
digits-Plain (suc fuel) n tail h =
    let more : Plain ((48 + n % 10) ∷ tail) = ((ground arith, ground arith), h) in
    elim (Bool-cases (n / 10 == 0)) [
      | inl e ↦ rw e more
      | inr e ↦ rw e (digits-Plain fuel (n / 10) ((48 + n % 10) ∷ tail) more)
    ]

pub length-digits : (fuel n : ℕ) (tail : List ℕ) → length (digits fuel n tail) ≤ fuel + length tail
unfolding digits
length-digits zero n tail = omega arith
length-digits (suc fuel) n tail = ground (arith, length-digits fuel (n / 10) ((48 + n % 10) ∷ tail))

-- A plain command that fits is copied, with a NUL behind it.
pub copied :
    (command before : List ℕ)
    → Plain command
    → length command ≤ length before
    → (rest : List ℕ) × (upper_from command (0 ∷ before) ≡ command ++ (0 ∷ rest))
unfolding upper_from
copied [] before h l = (before, refl)
copied (c ∷ command) [] h l = absurd (omega (arith, l))
copied (c ∷ command) (b ∷ before) ((u, z), h) l =
    let (rest, e) = copied command before h (omega (arith, l)) in
    (rest, rw z (ap₂ (λ x xs. x ∷ xs) u e))

pub Plain-append : (xs ys : List ℕ) → Plain xs → Plain ys → Plain (xs ++ ys)
Plain-append [] ys h k = k
Plain-append (x ∷ xs) ys (a, h) k = (a, Plain-append xs ys h k)
