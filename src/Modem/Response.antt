-- ===== src/Modem/Response.antt =====
-- The responses to the client: `modem_filter_result_code`, `modem_send_response` and the functions
-- of src/modem.c that call it.
pub mod Spoken
use modembridge.Prelude.{
  ℕ, zero, suc, ◌+◌, ◌-◌, ◌/◌, ◌%◌, Bool, true, false, not, ◌&&◌, ◌||◌, List, [], ◌∷◌, ◌++◌, ltb,
  ◌==◌, if◌then◌else◌, take, Option, none, some,
}
use modembridge.Common.{Status, success, error_invalid_arg, error_io}
use modembridge.Modem.State.{Modem, Settings, Serial, write, ring_count, int_bound, put_sreg}

-- The response texts of include/modem.h.
abbrev pub ok_text : List ℕ
ok_text = b'O' ∷ b'K' ∷ []

abbrev pub error_text : List ℕ
error_text = b'E' ∷ b'R' ∷ b'R' ∷ b'O' ∷ b'R' ∷ []

abbrev pub connect_text : List ℕ
connect_text = b'C' ∷ b'O' ∷ b'N' ∷ b'N' ∷ b'E' ∷ b'C' ∷ b'T' ∷ []

abbrev pub no_carrier_text : List ℕ
no_carrier_text = b'N' ∷ b'O' ∷ b' ' ∷ b'C' ∷ b'A' ∷ b'R' ∷ b'R' ∷ b'I' ∷ b'E' ∷ b'R' ∷ []

abbrev pub ring_text : List ℕ
ring_text = b'R' ∷ b'I' ∷ b'N' ∷ b'G' ∷ []

abbrev pub no_dialtone_text : List ℕ
no_dialtone_text = b'N' ∷ b'O' ∷ b' ' ∷ b'D' ∷ b'I' ∷ b'A' ∷ b'L' ∷ b'T' ∷ b'O' ∷ b'N' ∷ b'E' ∷ []

abbrev pub busy_text : List ℕ
busy_text = b'B' ∷ b'U' ∷ b'S' ∷ b'Y' ∷ []

abbrev pub no_answer_text : List ℕ
no_answer_text = b'N' ∷ b'O' ∷ b' ' ∷ b'A' ∷ b'N' ∷ b'S' ∷ b'W' ∷ b'E' ∷ b'R' ∷ []

-- `strcmp(a, b) == 0`.
unfoldable pub same : List ℕ → List ℕ → Bool
same [] [] = true
same [] (y ∷ ys) = false
same (x ∷ xs) [] = false
same (x ∷ xs) (y ∷ ys) = x == y && same xs ys

-- The digits of a number, with fuel for the number of digits; `%d` of an `int` has at most ten.
unfoldable pub digits : ℕ → ℕ → List ℕ → List ℕ
digits zero n tail = tail
digits (suc fuel) n tail =
    let more = digits fuel (n / 10) ((48 + n % 10) ∷ tail) in
    if n / 10 == 0 then (48 + n % 10) ∷ tail else more

unfoldable pub decimal : ℕ → List ℕ
decimal n = digits 10 n []

-- The numeric result codes: a text that is none of the known ones has the code of `OK`.
unfoldable pub numeric_code : List ℕ → ℕ
numeric_code response =
    if same response ok_text
    then 0
    else if same response connect_text
    then 1
    else if same response ring_text
    then 2
    else if same response no_carrier_text
    then 3
    else if same response error_text
    then 4
    else if same response no_dialtone_text
    then 6
    else if same response busy_text
    then 7
    else if same response no_answer_text
    then 8
    else 0

-- Whether the `X` mode replaces the response by `NO CARRIER`.
unfoldable pub is_reduced : ℕ → List ℕ → Bool
is_reduced x_mode response =
    let dialtone = same response no_dialtone_text in
    let busy = same response busy_text in
    let answer = same response no_answer_text in
    if x_mode == 0
    then dialtone || (busy || answer)
    else if x_mode == 2
    then busy || answer
    else if x_mode == 3
    then dialtone || answer
    else false

-- `modem_filter_result_code`, for a buffer of `resp_size` bytes.
unfoldable pub filter_result_code : Settings → List ℕ → ℕ → Option (List ℕ)
filter_result_code settings response resp_size =
    if resp_size == 0
    then none
    else if settings.quiet
    then some []
    else if not settings.verbose
    then some (take (resp_size - 1) (decimal (numeric_code response)))
    else if is_reduced settings.result_mode response
    then some no_carrier_text
    else some (take (resp_size - 1) response)

-- The response between two line ends, cut to the buffer.
unfoldable pub framed : List ℕ → List ℕ
framed text = take 255 (13 ∷ 10 ∷ (text ++ (13 ∷ 10 ∷ [])))

-- `serial_write`.
unfoldable pub serial_write : List ℕ → Modem → Modem
serial_write bytes modem = record modem { actions = write bytes ∷ modem.actions }

-- Whether a write failed.
unfoldable pub write_status : Option ℕ → Status
write_status none = error_io
write_status (some n) = success

-- The rest of `modem_send_response`, with the filtered text.
unfoldable pub send_filtered : Serial → Option (List ℕ) → Modem → Status × Modem
send_filtered serial none modem = (error_invalid_arg, modem)
send_filtered serial (some []) modem = (success, modem)
send_filtered serial (some (c ∷ text)) modem =
    let sent = serial_write (framed (c ∷ text)) modem in
    (write_status (serial.written sent.actions), sent)

-- `modem_send_response`, and so `modem_send_response_fmt` for a text that it makes.
unfoldable pub send_response : Serial → List ℕ → Modem → Status × Modem
send_response serial response modem =
    send_filtered serial (filter_result_code modem.settings response 256) modem

-- `modem_send_ring`; a count that would leave the `int` is undefined.
unfoldable pub send_ring : Serial → Modem → Option (Status × Modem)
send_ring serial modem =
    let count = modem.settings.s_registers ring_count in
    if ltb (count + 1) int_bound
    then some (send_response serial ring_text (put_sreg ring_count (count + 1) modem))
    else none

-- `modem_send_connect`, for a baud rate that is not negative.
unfoldable pub send_connect : Serial → ℕ → Modem → Status × Modem
send_connect serial baudrate modem =
    send_response serial
      (if ltb 0 baudrate then connect_text ++ (b' ' ∷ decimal baudrate) else connect_text) modem

-- `modem_send_no_carrier`.
unfoldable pub send_no_carrier : Serial → Modem → Status × Modem
send_no_carrier serial modem = send_response serial no_carrier_text modem
