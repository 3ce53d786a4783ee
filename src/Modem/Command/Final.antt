-- ===== src/Modem/Command/Final.antt =====
-- The response that ends a command line of `modem_process_command` of src/modem.c.
use modembridge.Prelude.{ℕ, ◌≡◌, refl, Option, some, none, List, [], ◌∷◌, if◌then◌else◌}
use modembridge.Modem.State.{Modem, Settings, Serial}
use modembridge.Modem.Response.{
  numeric_code, decimal, filter_result_code, send_filtered, send_response, serial_write,
}
use modembridge.Modem.Command.Ends.{Ends}

-- The text as the client sees it.
unfoldable pub shown : Settings → List ℕ → List ℕ
shown settings text = if settings.verbose then text else decimal (numeric_code text)

-- A text that is not empty.
IsSent : List ℕ → Type 0
IsSent text = (c : ℕ) × (rest : List ℕ) × (text ≡ c ∷ rest)

pub send_settings :
    (serial : Serial) (m : Modem) (text : List ℕ)
    → (send_response serial text m).1.settings ≡ m.settings
unfolding send_response
send_settings serial m text = by_text (filter_result_code m.settings text 256)
  where
    by_text : (o : Option (List ℕ)) → (send_filtered serial o m).1.settings ≡ m.settings
    by_text none = unfold send_filtered in refl
    by_text (some []) = unfold send_filtered in refl
    by_text (some (c ∷ t)) = unfold send_filtered serial_write in refl
