-- ===== src/Text/Ansi/Sequences.antt =====
-- What the filter of src/bridge.c lets through.
use modembridge.Prelude.{
  ℕ, ◌-◌, ◌≤◌, ◌≡◌, refl, sym, ap, ◌∙◌, Bool, true, false, ◌&&◌, leb, List, [], ◌∷◌, ◌++◌,
  append-nil, append_assoc, arith, length, length-append, take, take-nil, take_of_pos, ltb, ◌==◌,
  Bool-cases, All, inl, inr,
}
use modembridge.Text.Ansi.{
  AnsiState, normal, csi, csi_param, is_param, next, emit, filter_from, filter,
}

filter_from-append :
    (size : ℕ) (xs ys : List ℕ) (s : AnsiState) (out : List ℕ)
    → filter_from size s out (xs ++ ys)
      ≡ filter_from size (filter_from size s out xs).1 (filter_from size s out xs).0 ys
unfolding filter_from
filter_from-append size [] ys s out = refl
filter_from-append size (x ∷ xs) ys s out =
    filter_from-append size xs ys (next s x) (emit size s out x)

next_param : (c : ℕ) → is_param c ≡ true → (next csi c ≡ csi_param) × (next csi_param c ≡ csi_param)
unfolding next
next_param c h = (rw h, rw h)

next_last : (c : ℕ) → is_param c ≡ false → (next csi c ≡ normal) × (next csi_param c ≡ normal)
unfolding next
next_last c h = (rw h, rw h)

-- In a run of parameter bytes nothing is let through, and the byte behind it ends the sequence.
filter_from_params :
    (size : ℕ) (params : List ℕ) (last : ℕ) (rest out : List ℕ)
    → All (λ c. is_param c ≡ true) params
    → is_param last ≡ false
    → filter_from size csi_param out (params ++ last ∷ rest) ≡ filter_from size normal out rest
unfolding filter_from emit
filter_from_params size [] last rest out a h =
    ap (λ s. filter_from size s out rest) (next_last last h).1
filter_from_params size (c ∷ cs) last rest out (p, a) h =
    ap (λ s. filter_from size s out (cs ++ last ∷ rest)) (next_param c p).1
    ∙ filter_from_params size cs last rest out a h

filter_from_csi :
    (size : ℕ) (params : List ℕ) (last : ℕ) (rest out : List ℕ)
    → All (λ c. is_param c ≡ true) params
    → is_param last ≡ false
    → filter_from size csi out (params ++ last ∷ rest) ≡ filter_from size normal out rest
unfolding filter_from emit
filter_from_csi size [] last rest out a h =
    ap (λ s. filter_from size s out rest) (next_last last h).0
filter_from_csi size (c ∷ cs) last rest out (p, a) h =
    ap (λ s. filter_from size s out (cs ++ last ∷ rest)) (next_param c p).0
    ∙ filter_from_params size cs last rest out a h

state_of_plain :
    (size : ℕ) (xs out : List ℕ)
    → All (λ c. (c == 0x1b) ≡ false) xs
    → (filter_from size normal out xs).1 ≡ normal
unfolding filter_from next
state_of_plain size [] out a = refl
state_of_plain size (c ∷ cs) out (p, a) =
    ap (λ s. (filter_from size s (emit size normal out c) cs).1) (rw p)
    ∙ state_of_plain size cs (emit size normal out c) a

-- The parameter bytes of ECMA-48.
abbrev is_parameter : ℕ → Bool
is_parameter c = leb b'0' c && leb c b'?'

-- In plain text, ESC [ with any parameter bytes (0x30 to 0x3F) is cut out together with the first byte behind them
-- that is no parameter byte, whatever that byte is, and so a colour as well. What follows it is plain text again, so of a
-- sequence with an intermediate byte the final byte gets through.
pub filter_csi :
    (size : ℕ) (before params : List ℕ) (last : ℕ) (rest : List ℕ)
    → All (λ c. (c == 0x1b) ≡ false) before
    → All (λ c. is_parameter c ≡ true) params
    → is_parameter last ≡ false
    → filter size normal (before ++ (0x1b ∷ b'[' ∷ (params ++ last ∷ rest)))
      ≡ filter size normal (before ++ rest)
unfolding filter
filter_csi size before params last rest p a h =
    let (out, s) = filter_from size normal [] before in
    let e = state_of_plain size before [] p in
    filter_from-append size before (0x1b ∷ b'[' ∷ (params ++ last ∷ rest)) normal []
    ∙ ap (λ t. filter_from size t out (0x1b ∷ b'[' ∷ (params ++ last ∷ rest))) e
    ∙ unfold filter_from next emit in
      filter_from_csi size params last rest out a h
      ∙ ap (λ t. filter_from size t out rest) (sym e)
      ∙ sym (filter_from-append size before rest normal [])

filter_from_plain :
    (size : ℕ) (xs out : List ℕ)
    → All (λ c. (c == 0x1b) ≡ false) xs
    → length out ≤ size
    → filter_from size normal out xs ≡ (out ++ take (size - length out) xs, normal)
unfolding filter_from next emit
filter_from_plain size [] out a h =
    ap (λ t. (t, normal))
      (sym (ap (λ t. out ++ t) (take-nil ℕ (size - length out)) ∙ append-nil out))
filter_from_plain size (c ∷ cs) out (p, a) h = rw p (elim (Bool-cases (ltb (length out) size)) [
  | inl room ↦ rw room (
      filter_from_plain size cs (out ++ c ∷ []) a (ground (arith, length-append out (c ∷ [])))
      ∙ ap (λ t. (t, normal))
          (append_assoc out (c ∷ []) _
            ∙ ap (λ t. out ++ t)
                (ap (λ n. c ∷ take n cs) (omega (arith, length-append out (c ∷ [])))
                  ∙ sym (take_of_pos (size - length out) c cs (ground arith)))))
  | inr full ↦ rw full (
      let e : size - length out ≡ 0 = ground arith in
      filter_from_plain size cs out a h
      ∙ ap (λ n. (out ++ take n cs, normal)) e
      ∙ ap (λ n. (out ++ take n (c ∷ cs), normal)) (sym e))
])

-- Text with no ESC passes unchanged, as much of it as the output holds.
filter_plain :
    (size : ℕ) (xs : List ℕ)
    → All (λ c. (c == 0x1b) ≡ false) xs
    → filter size normal xs ≡ (take size xs, normal)
unfolding filter
filter_plain size xs a =
    filter_from_plain size xs [] a (omega arith) ∙ ap (λ n. (take n xs, normal)) (omega arith)
