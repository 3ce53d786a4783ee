-- ===== src/Modem/Command/Leads.antt =====
-- What the parameters of a command in `modem_process_command` of src/modem.c leave to read, and what
-- every command has to keep true of the modem.
use modembridge.Prelude.{
  ℕ, ◌+◌, ◌-◌, ◌*◌, ◌≤◌, ◌<◌, ◌≡◌, refl, Bool, true, false, Option, none, some, List, [], ◌∷◌,
  arith, length, Bool-cases, inl, inr, if◌then◌else◌, ◌==◌, not, ltb, ltb→lt, leb→le, leb, ◌||◌,
}
use modembridge.Modem.State.{Modem, Settings, Serial, reset, int_bound}
use modembridge.Modem.Response.{
  send_response, ok_text, error_text, connect_text, no_carrier_text, same,
}
use modembridge.Modem.Call.{set_sreg, go_online, answer, hangup}
use modembridge.Modem.Command.{
  Step, next, respond, undefined_step, digit, number, skip_blanks, is_digit, ranged, switched,
  ignoring, with_settings, saved,
}

-- The texts that end a command line.
unfoldable pub is_final : List ℕ → Bool
is_final text =
    same text ok_text
    || (same text error_text || (same text connect_text || same text no_carrier_text))

pub ok_final : is_final ok_text ≡ true
unfolding is_final same
ok_final = refl

pub error_final : is_final error_text ≡ true
unfolding is_final same
error_final = refl

-- A step leaves no more to read than a bound, and makes a predicate true of the modem; a response is
-- one that ends a line.
abbrev pub Leads : ℕ → (Modem → Type 0) → Step → Type 0
Leads n R (next p modem) = (length p ≤ n) × R modem
Leads n R (respond text modem) = R modem × (is_final text ≡ true)
Leads n R undefined_step = Unit

-- So with what a parser of a parameter leaves.
abbrev pub Leaves : ℕ → ℕ → Option (ℕ × List ℕ) → Type 0
Leaves n top none = Unit
Leaves n top (some (v, p)) = (length p ≤ n) × (v < top)

pub either-Leads :
    (n : ℕ) (R : Modem → Type 0) (b : Bool) (s t : Step)
    → Leads n R s
    → Leads n R t
    → Leads n R (if b then s else t)
either-Leads n R true s t h k = h
either-Leads n R false s t h k = k

pub guarded-Leads :
    (n : ℕ) (R : Modem → Type 0) (b : Bool) (s t : Step)
    → (b ≡ true → Leads n R s)
    → Leads n R t
    → Leads n R (if b then s else t)
guarded-Leads n R true s t h k = h refl
guarded-Leads n R false s t h k = k

pub digit-Leaves :
    (n default : ℕ) (p : List ℕ) → length p ≤ n → default < 10 → Leaves n 10 (digit default p)
unfolding digit is_digit
digit-Leaves n default [] h d = tt
digit-Leaves n default (c ∷ p) h d = (ground arith, ground arith)

pub number-Leaves :
    (n acc : ℕ) (p : List ℕ) → length p ≤ n → acc < int_bound → Leaves n int_bound (number acc p)
unfolding number
number-Leaves n acc [] h a = tt
number-Leaves n acc (c ∷ p) h a = elim (Bool-cases (not (is_digit c))) [
  | inl e ↦ rw e (h, a)
  | inr e ↦ rw e (elim (Bool-cases (ltb (acc * 10 + (c - 48)) int_bound)) [
    | inl k ↦ rw k (
        number-Leaves n (acc * 10 + (c - 48)) p (omega arith)
          (ltb→lt (acc * 10 + (c - 48)) int_bound k))
    | inr k ↦ rw k tt
  ])
]

pub skip_blanks-Leaves :
    (n : ℕ) (p q : List ℕ) → length p ≤ n → skip_blanks p ≡ some q → length q ≤ n
unfolding skip_blanks
skip_blanks-Leaves n [] q h e = ground arith
skip_blanks-Leaves n (c ∷ p) q h e = ground (arith, skip_blanks-Leaves n p q)

-- What every command keeps true.
pub record Closed (R : Modem → Type 0) (serial : Serial) : Type 0 where
  pub at_bell_mode :
      (m : Modem) (v : ℕ) → v ≤ 1 → R m → R (with_settings (λ s. record s { bell_mode = v }) m)
  pub at_speaker_volume :
      (m : Modem) (v : ℕ) → v ≤ 3 → R m → R (with_settings (λ s. record s { speaker_volume = v }) m)
  pub at_speaker_control :
      (m : Modem) (v : ℕ)
      → v ≤ 3
      → R m
      → R (with_settings (λ s. record s { speaker_control = v }) m)
  pub at_result_mode :
      (m : Modem) (v : ℕ) → v ≤ 4 → R m → R (with_settings (λ s. record s { result_mode = v }) m)
  pub at_dcd_mode :
      (m : Modem) (v : ℕ) → v ≤ 1 → R m → R (with_settings (λ s. record s { dcd_mode = v }) m)
  pub at_dtr_mode :
      (m : Modem) (v : ℕ) → v ≤ 3 → R m → R (with_settings (λ s. record s { dtr_mode = v }) m)
  pub at_dsr_mode :
      (m : Modem) (v : ℕ) → v ≤ 1 → R m → R (with_settings (λ s. record s { dsr_mode = v }) m)
  pub at_error_correction :
      (m : Modem) (v : ℕ)
      → v ≤ 3
      → R m
      → R (with_settings (λ s. record s { error_correction = v }) m)
  pub at_saved : (m : Modem) (v : ℕ) → v ≤ 1 → R m → R (with_settings (saved v) m)
  pub at_echo : (m : Modem) (on : Bool) → R m → R (with_settings (λ s. record s { echo = on }) m)
  pub at_quiet : (m : Modem) (on : Bool) → R m → R (with_settings (λ s. record s { quiet = on }) m)
  pub at_verbose :
      (m : Modem) (on : Bool) → R m → R (with_settings (λ s. record s { verbose = on }) m)
  pub at_sreg : (m : Modem) (reg v : ℕ) → v < int_bound → R m → R (set_sreg reg v m).1
  pub at_reset : (m : Modem) → R m → R (reset m)
  pub at_answer : (m : Modem) → R m → R (answer m)
  pub at_online : (m : Modem) → m.carrier ≡ true → R m → R (go_online m)
  pub at_hangup : (m : Modem) → R m → R (hangup serial m)
  pub at_send : (m : Modem) (text : List ℕ) → R m → R (send_response serial text m).1

module _ (R : Modem → Type 0) (n : ℕ) where
  pub ranged-Leads :
      (o : Option (ℕ × List ℕ)) (top : ℕ) (change : ℕ → Settings → Settings) (m : Modem)
      → Leaves n 10 o
      → R m
      → ((v : ℕ) → v ≤ top → R (with_settings (change v) m))
      → Leads n R (ranged o top change m)
  unfolding ranged
  ranged-Leads none top change m h r k = tt
  ranged-Leads (some (v, p)) top change m (h, d) r k = elim (Bool-cases (leb v top)) [
    | inl e ↦ rw e (h, k v (leb→le v top e))
    | inr e ↦ rw e (r, error_final)
  ]

  pub switched-Leads :
      (o : Option (ℕ × List ℕ)) (change : Bool → Settings → Settings) (m : Modem)
      → Leaves n 10 o
      → ((on : Bool) → R (with_settings (change on) m))
      → Leads n R (switched o change m)
  unfolding switched
  switched-Leads none change m h k = tt
  switched-Leads (some (v, p)) change m (h, d) k = (h, k (not (v == 0)))

  pub ignoring-Leads :
      (o : Option (ℕ × List ℕ)) (go : List ℕ → Step)
      → Leaves n 10 o
      → ((p : List ℕ) → length p ≤ n → Leads n R (go p))
      → Leads n R (ignoring o go)
  unfolding ignoring
  ignoring-Leads none go h k = tt
  ignoring-Leads (some (v, p)) go (h, d) k = k p h
