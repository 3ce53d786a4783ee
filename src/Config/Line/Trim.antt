-- ===== src/Config/Line/Trim.antt =====
-- Cutting a line at a byte, and off its blanks and quotes, in src/config.c and src/common.c.
use modembridge.Prelude.{
  ℕ, ◌≡◌, refl, ap, true, false, some, List, [], ◌∷◌, ◌++◌, arith, length, length-append, All,
  Bool-cases, inl, inr, ◌==◌, ◌<◌,
}
use modembridge.Config.Line.{
  is_space, before, behind, trim_left, trim_right, without_last, unquote, unquoted,
}

-- Blanks; bytes without another; and the bytes of a key, which also are no blanks.
abbrev pub Blank : List ℕ → Type 0
Blank = All (λ c. is_space c ≡ true)

abbrev pub Without : ℕ → List ℕ → Type 0
Without stop = All (λ c. (c == stop) ≡ false)

abbrev pub Solid : List ℕ → Type 0
Solid = All (λ c. is_space c ≡ false)

pub before-append :
    (stop : ℕ) (xs ys : List ℕ) → Without stop xs → before stop (xs ++ ys) ≡ xs ++ before stop ys
unfolding before
before-append stop [] ys h = refl
before-append stop (x ∷ xs) ys (e, h) = rw e (ap (λ t. x ∷ t) (before-append stop xs ys h))

pub behind-append :
    (stop : ℕ) (xs ys : List ℕ) → Without stop xs → behind stop (xs ++ (stop ∷ ys)) ≡ some ys
unfolding behind
behind-append stop [] ys h = ground arith
behind-append stop (x ∷ xs) ys (e, h) = rw e (behind-append stop xs ys h)

pub trim_left-append : (xs ys : List ℕ) → Blank xs → trim_left (xs ++ ys) ≡ trim_left ys
unfolding trim_left
trim_left-append [] ys h = refl
trim_left-append (x ∷ xs) ys (e, h) = rw e (trim_left-append xs ys h)

pub trim_left_solid : (x : ℕ) (xs : List ℕ) → is_space x ≡ false → trim_left (x ∷ xs) ≡ x ∷ xs
unfolding trim_left
trim_left_solid x xs e = rw e refl

trim_right-Blank : (xs : List ℕ) → Blank xs → trim_right xs ≡ []
unfolding trim_right
trim_right-Blank [] h = refl
trim_right-Blank (x ∷ xs) (e, h) = rw (e, trim_right-Blank xs h) refl

pub trim_right_last :
    (x : ℕ) (xs : List ℕ) → is_space x ≡ false → Blank xs → trim_right (x ∷ xs) ≡ x ∷ []
unfolding trim_right
trim_right_last x xs e h = rw (e, trim_right-Blank xs h) refl

-- What is trimmed to something that is not empty.
abbrev pub Kept : List ℕ → List ℕ → Type 0
Kept ys ws = (trim_right ys ≡ ws) × ((length ws == 0) ≡ false)

-- What stands before it is kept.
pub append-Kept : (xs ys ws : List ℕ) → Kept ys ws → Kept (xs ++ ys) (xs ++ ws)
unfolding trim_right
append-Kept [] ys ws k = k
append-Kept (x ∷ xs) ys ws k =
    let (e, n) = append-Kept xs ys ws k in
    (
      rw e (elim (Bool-cases (is_space x)) [ inl s ↦ rw (s, n) refl | inr s ↦ rw s refl ]),
      ground arith,
    )

-- A key with blanks behind it.
pub trim_key :
    (k : ℕ) (key b : List ℕ) → Solid (k ∷ key) → Blank b → trim_right (k ∷ (key ++ b)) ≡ k ∷ key
unfolding trim_right
trim_key k [] b (e, h) bs = trim_right_last k b e bs
trim_key k (l ∷ key) b (e, h) bs = rw (trim_key l key b h bs, e) refl

without_last-append : (xs : List ℕ) (x : ℕ) → without_last (x ∷ (xs ++ (34 ∷ []))) ≡ some (x ∷ xs)
unfolding without_last
without_last-append [] x = refl
without_last-append (y ∷ xs) x = rw (without_last-append xs y) refl

last_quote : (value : List ℕ) → without_last (value ++ (34 ∷ [])) ≡ some value
unfolding without_last
last_quote [] = refl
last_quote (x ∷ value) = without_last-append value x

unquote_text :
    (c : ℕ) (text rest : List ℕ)
    → 0 < length text
    → without_last text ≡ some rest
    → unquote (c ∷ text) ≡ unquoted c text (some rest)
unfolding unquote
unquote_text c [] rest h e = elim h [ ]
unquote_text c (d ∷ text) rest h e = rw e refl

pub unquote_quoted : (value : List ℕ) → unquote (34 ∷ (value ++ (34 ∷ []))) ≡ value
unfolding unquoted
unquote_quoted value =
    unquote_text 34 (value ++ (34 ∷ [])) value (omega (arith, length-append {0} value (34 ∷ [])))
      (last_quote value)
