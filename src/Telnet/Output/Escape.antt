-- ===== src/Telnet/Output/Escape.antt =====
-- What `telnet_prepare_output` of src/telnet.c writes: the longest part of the input that fits,
-- escaped.
use modembridge.Prelude.{
  ℕ, suc, ◌+◌, ◌*◌, ◌≤◌, ◌<◌, ◌≡◌, ◌⊎◌, inl, inr, refl, sym, ap, ◌∙◌, Bool, true, false, List, [],
  ◌∷◌, ◌++◌, append-nil, append_assoc, arith, length, length-append, take, length-take, take-length,
  ltb, ◌==◌, if◌then◌else◌, Bool-cases,
}
use modembridge.Telnet.Output.{prepare_from, prepare_output}
use modembridge.Telnet.Byte

-- A byte as it stands on the wire.
abbrev pub escaped : ℕ → List ℕ
escaped c = if c == Byte.iac then Byte.iac ∷ Byte.iac ∷ [] else c ∷ []

unfoldable pub escape : List ℕ → List ℕ
escape [] = []
escape (c ∷ cs) = escaped c ++ escape cs

pub length-escape-le : (cs : List ℕ) → length (escape cs) ≤ 2 * length cs
unfolding escape
length-escape-le [] = omega arith
length-escape-le (c ∷ cs) =
    ground (arith, length-escape-le cs, length-append (escaped c) (escape cs))

-- `out` is the escaped form of the first `k` bytes, fits, and the next byte would not.
pub record IsLongest (size : ℕ) (before input out : List ℕ) (k : ℕ) : Type 0 where
  pub is_escape : out ≡ before ++ escape (take k input)
  pub fits : length out ≤ size
  pub k_le : k ≤ length input
  pub longest : (k ≡ length input) ⊎ (size < length (before ++ escape (take (suc k) input)))

step_byte : ℕ → List ℕ → ℕ → Bool
step_byte size out c = if c == Byte.iac then ltb (length out + 1) size else ltb (length out) size

prepare_from-cons :
    (size : ℕ) (out : List ℕ) (c : ℕ) (cs : List ℕ)
    → prepare_from size out (c ∷ cs)
      ≡ (if step_byte size out c then prepare_from size (out ++ escaped c) cs else out)
unfolding prepare_from step_byte
prepare_from-cons size out c cs = ground arith

step_byte_iff :
    (size : ℕ) (out : List ℕ) (c : ℕ)
    → (step_byte size out c ≡ true → length (out ++ escaped c) ≤ size)
      × (step_byte size out c ≡ false → size < length (out ++ escaped c))
unfolding step_byte
step_byte_iff size out c = (
  λ e. ground (arith, length-append out (escaped c)),
  λ e. ground (arith, length-append out (escaped c)),
)

IsLongest-cons :
    (size : ℕ) (out : List ℕ) (c : ℕ) (cs r : List ℕ) (k : ℕ)
    → IsLongest size (out ++ escaped c) cs r k
    → IsLongest size out (c ∷ cs) r (suc k)
unfolding escape
IsLongest-cons size out c cs r k w = record {
  is_escape = w.is_escape ∙ append_assoc out (escaped c) _;
  fits = w.fits;
  k_le = omega (arith, w.k_le);
  longest = elim w.longest [
    | inl all ↦ inl (ap suc all)
    | inr more ↦ inr (rw (append_assoc out (escaped c) (escape (take (suc k) cs))) at more)
  ];
}

IsLongest-stop :
    (size : ℕ) (out : List ℕ) (c : ℕ) (cs : List ℕ)
    → length out ≤ size
    → size < length (out ++ escaped c)
    → IsLongest size out (c ∷ cs) out 0
unfolding escape
IsLongest-stop size out c cs h l = record {
  is_escape = sym (append-nil out);
  fits = h;
  k_le = omega arith;
  longest = inr (rw append-nil l);
}

IsLongest-nil : (size : ℕ) (out : List ℕ) → length out ≤ size → IsLongest size out [] out 0
unfolding escape
IsLongest-nil size out h = record {
  is_escape = sym (append-nil out);
  fits = h;
  k_le = omega arith;
  longest = inl refl;
}

prepare_from-IsLongest :
    (size : ℕ) (out input : List ℕ)
    → length out ≤ size
    → (k : ℕ) × IsLongest size out input (prepare_from size out input) k
prepare_from-IsLongest size out [] h = unfold prepare_from in (0, IsLongest-nil size out h)
prepare_from-IsLongest size out (c ∷ cs) h =
    let next = step_byte_iff size out c in
    rw prepare_from-cons (elim (Bool-cases (step_byte size out c)) [
      | inl goes ↦ rw goes (
          let (k, w) = prepare_from-IsLongest size (out ++ escaped c) cs (next.0 goes) in
          (suc k, IsLongest-cons size out c cs _ k w))
      | inr stops ↦ rw stops ((0, IsLongest-stop size out c cs h (next.1 stops)))
    ])

-- Whatever the room, `telnet_prepare_output` writes the escaped form of a beginning of the input,
-- within the room and never with half of a doubled IAC, and it stops early only where the next byte
-- does not fit.
pub prepare_output-IsLongest :
    (input : List ℕ) (output_size : ℕ)
    → (k : ℕ) × IsLongest output_size [] input (prepare_output input output_size) k
unfolding prepare_output
prepare_output-IsLongest input output_size =
    prepare_from-IsLongest output_size [] input (omega arith)

-- With room for two bytes for each byte of the input, all of the input is escaped.
pub prepare_output_all :
    (input : List ℕ) (output_size : ℕ)
    → 2 * length input ≤ output_size
    → prepare_output input output_size ≡ escape input
prepare_output_all input output_size h =
    let (k, w) = prepare_output-IsLongest input output_size in
    let all : k ≡ length input = elim w.longest [
      | inl e ↦ e
      | inr l ↦
          absurd (omega (arith, length-escape-le (take (suc k) input), length-take (suc k) input))
    ] in
    w.is_escape ∙ ap escape (ap (λ n. take n input) all ∙ take-length input)
