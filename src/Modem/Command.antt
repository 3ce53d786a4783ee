-- ===== src/Modem/Command.antt =====
-- `modem_process_command` of src/modem.c. The pointer `p` is the list of the bytes from `p` to the
-- end of `cmd_upper`: the upper-case command, its NUL, and what stood in the array before, which
-- nothing initialises. Reading behind the end of the array, and a number that leaves the `int`, are
-- undefined.
pub mod Leads
pub mod Steps
pub mod Ends
pub mod Bounds
pub mod Final
pub mod Numbers
pub mod Registers
pub mod Empty
use modembridge.Prelude.{
  ℕ, zero, suc, ◌+◌, ◌-◌, ◌*◌, Bool, true, false, not, ◌&&◌, ◌||◌, Option, none, some, List, [],
  ◌∷◌, ◌++◌, ltb, leb, ◌==◌, if◌then◌else◌, take, drop, length,
}
use modembridge.Common.{Status}
use modembridge.Modem.State.{Modem, Settings, Serial, int_bound, reset}
use modembridge.Modem.Response.{
  send_response, ok_text, error_text, connect_text, no_carrier_text, decimal,
}
use modembridge.Modem.Call.{get_sreg, set_sreg, go_online, hangup, answer, show_configuration}

-- `isdigit`, `toupper`, and the blanks between commands.
unfoldable pub is_digit : ℕ → Bool
is_digit c = leb 48 c && leb c 57

unfoldable pub to_upper : ℕ → ℕ
to_upper c = if leb 97 c && leb c 122 then c - 32 else c

unfoldable pub is_blank : ℕ → Bool
is_blank c = c == b' ' || c == 9

-- `cmd_upper` after the copy, of an array that held `before`: the loop copies a byte and writes a
-- NUL behind it, and so writes nothing for an empty command.
unfoldable pub upper_from : List ℕ → List ℕ → List ℕ
upper_from [] before = before
upper_from (c ∷ command) [] = []
upper_from (c ∷ command) (b ∷ []) = b ∷ []
upper_from (c ∷ command) (b ∷ b' ∷ before) =
    if c == 0 then b ∷ b' ∷ before else to_upper c ∷ upper_from command (0 ∷ before)

-- An optional digit, with the value where there is none.
unfoldable pub digit : ℕ → List ℕ → Option (ℕ × List ℕ)
digit default [] = none
digit default (c ∷ p) = some (if is_digit c then (c - 48, p) else (default, c ∷ p))

-- A number, after the digits so far.
unfoldable pub number : ℕ → List ℕ → Option (ℕ × List ℕ)
number acc [] = none
number acc (c ∷ p) =
    let more = number (acc * 10 + (c - 48)) p in
    if not (is_digit c)
    then some (acc, c ∷ p)
    else if ltb (acc * 10 + (c - 48)) int_bound
    then more
    else none

unfoldable pub skip_blanks : List ℕ → Option (List ℕ)
skip_blanks [] = none
skip_blanks (c ∷ p) = let more = skip_blanks p in if is_blank c then more else some (c ∷ p)

-- The dial string, up to a NUL, a space or `;`.
unfoldable pub skip_dial : List ℕ → Option (List ℕ)
skip_dial [] = none
skip_dial (c ∷ p) =
    let more = skip_dial p in if c == 0 || (c == b' ' || c == b';') then some (c ∷ p) else more

-- What one command comes to: the next command, a response that ends the line, or a read or a number
-- that is undefined.
pub data Step : Type 0 where
  next : List ℕ → Modem → Step
  respond : List ℕ → Modem → Step
  undefined_step : Step

unfoldable pub with_settings : (Settings → Settings) → Modem → Modem
with_settings change modem = record modem { settings = change modem.settings }

-- A setting from a number up to `top`, and else `ERROR`.
unfoldable pub ranged : Option (ℕ × List ℕ) → ℕ → (ℕ → Settings → Settings) → Modem → Step
ranged none top change modem = undefined_step
ranged (some (v, p)) top change modem =
    if leb v top then next p (with_settings (change v) modem) else respond error_text modem

-- A setting that any digit may give.
unfoldable pub switched : Option (ℕ × List ℕ) → (Bool → Settings → Settings) → Modem → Step
switched none change modem = undefined_step
switched (some (v, p)) change modem = next p (with_settings (change (not (v == 0))) modem)

-- What follows once a parameter is read whose value is not used.
unfoldable pub ignoring : Option (ℕ × List ℕ) → (List ℕ → Step) → Step
ignoring none go = undefined_step
ignoring (some (v, p)) go = go p

unfoldable pub dialed : Option (List ℕ) → Modem → Step
dialed none modem = undefined_step
dialed (some p) modem = respond ok_text modem

-- `ATA`, unless a `T` follows.
unfoldable pub answer_command : List ℕ → Modem → Step
answer_command [] modem = undefined_step
answer_command (c ∷ p) modem = next (c ∷ p) (if c == b'T' then modem else answer modem)

-- `ATO`.
unfoldable pub online_command : Modem → Step
online_command modem =
    if modem.carrier then respond connect_text (go_online modem) else respond no_carrier_text modem

-- The version that include/common.h defines, in the text of `ATI`.
abbrev pub version_text : List ℕ
version_text =
    b'M' ∷ b'o' ∷ b'd' ∷ b'e' ∷ b'm' ∷ b'B' ∷ b'r' ∷ b'i' ∷ b'd' ∷ b'g' ∷ b'e' ∷ b' ' ∷ b'v' ∷ b'1'
    ∷ b'.' ∷ b'0' ∷ b'.' ∷ b'0' ∷ []

-- `ATSr=`, after the sign.
unfoldable pub assigned : ℕ → Option (ℕ × List ℕ) → Modem → Step
assigned reg none modem = undefined_step
assigned reg (some (v, p)) modem = next p (set_sreg reg v modem).1

-- What follows the number of a register.
unfoldable pub register_command : Serial → Option (ℕ × List ℕ) → Modem → Step
register_command serial none modem = undefined_step
register_command serial (some (reg, [])) modem = undefined_step
register_command serial (some (reg, c ∷ p)) modem =
    if c == b'='
    then assigned reg (number 0 p) modem
    else if c == b'?'
    then respond ok_text (send_response serial (decimal (get_sreg modem reg)) modem).1
    else next (c ∷ p) modem

unfoldable pub saved : ℕ → Settings → Settings
saved profile s = record s { profile_saved = λ i. if i == profile then true else s.profile_saved i }

-- The commands after `&`.
unfoldable pub and_command : Serial → List ℕ → Modem → Step
and_command serial [] modem = undefined_step
and_command serial (c ∷ p) modem =
    if c == b'C'
    then ranged (digit 1 p) 1 (λ v s. record s { dcd_mode = v }) modem
    else if c == b'D'
    then ranged (digit 2 p) 3 (λ v s. record s { dtr_mode = v }) modem
    else if c == b'F'
    then next p (reset modem)
    else if c == b'V'
    then respond ok_text (show_configuration serial modem)
    else if c == b'W'
    then ranged (digit 0 p) 1 saved modem
    else if c == b'S'
    then ranged (digit 0 p) 1 (λ v s. record s { dsr_mode = v }) modem
    else ignoring (digit 0 p) (λ q. next q modem)

-- The commands after a backslash.
unfoldable pub backslash_command : List ℕ → Modem → Step
backslash_command [] modem = undefined_step
backslash_command (c ∷ p) modem =
    if c == b'N'
    then ranged (digit 3 p) 3 (λ v s. record s { error_correction = v }) modem
    else ignoring (digit 0 p) (λ q. next q modem)

-- The commands from `ATO` on.
unfoldable pub late_command : Serial → ℕ → List ℕ → Modem → Step
late_command serial c p modem =
    if c == b'O'
    then ignoring (digit 0 p) (λ q. online_command modem)
    else if c == b'Q'
    then switched (digit 0 p) (λ on s. record s { quiet = on }) modem
    else if c == b'S'
    then register_command serial (number 0 p) modem
    else if c == b'V'
    then switched (digit 1 p) (λ on s. record s { verbose = on }) modem
    else if c == b'X'
    then ranged (digit 4 p) 4 (λ v s. record s { result_mode = v }) modem
    else if c == b'Z'
    then ignoring (digit 0 p) (λ q. respond ok_text (reset modem))
    else if c == b'&'
    then and_command serial p modem
    else if c == b'\\'
    then backslash_command p modem
    else next p modem

-- One command, of the letter and what follows.
unfoldable pub command_step : Serial → ℕ → List ℕ → Modem → Step
command_step serial c p modem =
    if c == b'A'
    then answer_command p modem
    else if c == b'B'
    then ranged (digit 0 p) 1 (λ v s. record s { bell_mode = v }) modem
    else if c == b'D'
    then dialed (skip_dial p) modem
    else if c == b'E'
    then switched (digit 1 p) (λ on s. record s { echo = on }) modem
    else if c == b'H'
    then ignoring (digit 0 p) (λ q. respond ok_text (hangup serial modem))
    else if c == b'I'
    then ignoring (digit 0 p) (λ q. respond ok_text (send_response serial version_text modem).1)
    else if c == b'L'
    then ranged (digit 2 p) 3 (λ v s. record s { speaker_volume = v }) modem
    else if c == b'M'
    then ranged (digit 1 p) 3 (λ v s. record s { speaker_control = v }) modem
    else late_command serial c p modem

-- How a command line ends.
pub data Outcome : Type 0 where
  returned : Status × Modem → Outcome
  undefined : Outcome
  out_of_fuel : Outcome

-- The end of a turn of the loop: a response ends the line, and `loop` is the next turn.
unfoldable pub after_step : Serial → (List ℕ → Modem → Outcome) → Step → Outcome
after_step serial loop (next p modem) = loop p modem
after_step serial loop (respond text modem) = returned (send_response serial text modem)
after_step serial loop undefined_step = undefined

-- A turn of the loop, at the first byte that is no blank.
unfoldable pub turn : Serial → (List ℕ → Modem → Outcome) → Option (List ℕ) → Modem → Outcome
turn serial loop none modem = undefined
turn serial loop (some []) modem = undefined
turn serial loop (some (c ∷ p)) modem =
    if c == 0
    then returned (send_response serial ok_text modem)
    else after_step serial loop (command_step serial c p modem)

-- The loop over the commands, on fuel.
unfoldable pub commands : Serial → ℕ → List ℕ → Modem → Outcome
commands serial zero p modem = out_of_fuel
commands serial (suc fuel) p modem = turn serial (commands serial fuel) (skip_blanks p) modem

-- `modem_process_command`, where `cmd_upper` held `before`. The loop ends at once on an empty
-- command, as the test before it does.
unfoldable pub process_command : Serial → List ℕ → List ℕ → Modem → Outcome
process_command serial before command modem =
    commands serial (suc (length before)) (upper_from command before) modem
