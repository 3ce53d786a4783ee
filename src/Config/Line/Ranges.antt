-- ===== src/Config/Line/Ranges.antt =====
-- The ranges of the settings that src/config.c gives.
use modembridge.Config.Words.{
  serial_port_key, comport_key, baudrate_key, bit_parity_key, bit_data_key, bit_stop_key, flow_key,
  modem_init_key, autoanswer_mode_key, autoanswer_software_key, autoanswer_hardware_key,
  autoanswer_key, modem_command_key, modem_health_key, telnet_host_key, telnet_port_key,
  data_log_enabled_key, data_log_file_key, echo_enabled_key, echo_immediate_key,
  echo_first_delay_key, echo_min_interval_key, echo_prefix_key,
}
use modembridge.Prelude.{
  ℕ, ◌≤◌, ◌≡◌, refl, Bool, true, false, leb, ltb, not, ◌&&◌, ◌||◌, List, [], ◌∷◌, arith, length,
  take, length-take, ◌==◌, if◌then◌else◌, Option, none, some,
}
use modembridge.Common.{Status, success, error_config}
use modembridge.Config.State.{
  ℤ, pos, negsuc, Config, is_int, is_port, init, validate, baudrate_to_speed, same_nocase,
  str_to_parity, str_to_flow,
}
use modembridge.Config.Line.{
  one_of, at_least, set_baudrate, assign_late, assign, parse_trimmed, parse_config_line, load,
  trim_whitespace, before, behind,
}

-- An `int` that is the number, or one from the number on.
abbrev pub equals : ℕ → ℤ → Bool
equals n (pos k) = k == n
equals n (negsuc k) = false

abbrev is_from : ℕ → ℤ → Bool
is_from low (pos k) = leb low k
is_from low (negsuc k) = false

-- From 1 to 65535.
abbrev is_tcp_port : ℤ → Bool
is_tcp_port (pos k) = leb 1 k && ltb k 65536
is_tcp_port (negsuc k) = false

-- The numbers are in the ranges of include/config.h, and the texts fit their arrays with the NUL.
pub record IsValid (cfg : Config) : Type 0 where
  pub data_bits_is : (equals 7 cfg.data_bits || equals 8 cfg.data_bits) ≡ true
  pub stop_bits_is : (equals 1 cfg.stop_bits || equals 2 cfg.stop_bits) ≡ true
  pub mode_is : (equals 0 cfg.modem_autoanswer_mode || equals 1 cfg.modem_autoanswer_mode) ≡ true
  pub first_delay_is : is_from 0 cfg.echo_first_delay ≡ true
  pub min_interval_is : is_from 1 cfg.echo_min_interval ≡ true
  pub serial_port_fits : length cfg.serial_port ≤ 255
  pub init_command_fits : length cfg.modem_init_command ≤ 1023
  pub software_command_fits : length cfg.modem_autoanswer_software_command ≤ 1023
  pub hardware_command_fits : length cfg.modem_autoanswer_hardware_command ≤ 1023
  pub command_fits : length cfg.modem_command ≤ 1023
  pub telnet_host_fits : length cfg.telnet_host ≤ 255
  pub pid_file_fits : length cfg.pid_file ≤ 255
  pub data_log_file_fits : length cfg.data_log_file ≤ 255
  pub echo_prefix_fits : length cfg.echo_prefix ≤ 63

either-IsValid : (b : Bool) (x y : Config) → IsValid x → IsValid y → IsValid (if b then x else y)
either-IsValid true x y v w = v
either-IsValid false x y v w = w

either_second :
    (b : Bool) (x y : Status × Config) → IsValid x.1 → IsValid y.1 → IsValid (if b then x else y).1
either_second true x y v w = v
either_second false x y v w = w

is_int_lem : (k : ℕ) (n : ℤ) → is_int k n ≡ equals k n
unfolding is_int
is_int_lem k (pos n) = refl
is_int_lem k (negsuc n) = refl

one_of_is :
    (a b k : ℕ) (n : ℤ)
    → (equals a (pos k) || equals b (pos k)) ≡ true
    → (equals a (one_of a b (pos k) n) || equals b (one_of a b (pos k) n)) ≡ true
unfolding one_of
one_of_is a b k n h = ground (arith, h, is_int_lem a n, is_int_lem b n)

at_least_is : (low : ℕ) (n : ℤ) → is_from low (at_least low n) ≡ true
unfolding at_least
at_least_is low (pos n) = ground arith
at_least_is low (negsuc n) = ground arith

length-cut : (n : ℕ) (value : List ℕ) → length (take n value) ≤ n
length-cut n value = omega (arith, length-take n value)

init-IsValid : IsValid init
unfolding is_int at_least
init-IsValid = record {
  data_bits_is = refl;
  stop_bits_is = refl;
  mode_is = refl;
  first_delay_is = refl;
  min_interval_is = refl;
  serial_port_fits = omega arith;
  init_command_fits = omega arith;
  software_command_fits = omega arith;
  hardware_command_fits = omega arith;
  command_fits = omega arith;
  telnet_host_fits = omega arith;
  pid_file_fits = omega arith;
  data_log_file_fits = omega arith;
  echo_prefix_fits = omega arith;
}

baud-IsValid : (n : ℤ) (cfg : Config) → IsValid cfg → IsValid (set_baudrate n cfg)
unfolding set_baudrate
baud-IsValid n cfg v =
    let speed = baudrate_to_speed n in
    either-IsValid (speed == 0 && not (is_int 0 n))
      (record cfg { baudrate = 57600; baudrate_value = pos 57600 })
      (record cfg { baudrate = speed; baudrate_value = n }) (ground (arith, v)) (ground (arith, v))

late-IsValid :
    (atoi : List ℕ → ℤ) (key value : List ℕ) (cfg : Config)
    → IsValid cfg
    → IsValid (assign_late atoi key value cfg)
unfolding assign_late is_int
late-IsValid atoi key value cfg v =
    either-IsValid (same_nocase key modem_health_key)
      (record cfg { modem_command = take 1023 value }) _ (ground (arith, v, length-cut 1023 value))
      (either-IsValid (same_nocase key telnet_host_key)
        (record cfg { telnet_host = take 255 value }) _ (ground (arith, v, length-cut 255 value))
        (either-IsValid (same_nocase key telnet_port_key) (record cfg { telnet_port = atoi value })
          _ (ground (arith, v))
          (either-IsValid (same_nocase key data_log_enabled_key)
            (record cfg { data_log_enabled = not (is_int 0 (atoi value)) }) _ (ground (arith, v))
            (either-IsValid (same_nocase key data_log_file_key)
              (record cfg { data_log_file = take 255 value }) _
              (ground (arith, v, length-cut 255 value))
              (either-IsValid (same_nocase key echo_enabled_key)
                (record cfg { echo_enabled = not (is_int 0 (atoi value)) }) _ (ground (arith, v))
                (either-IsValid (same_nocase key echo_immediate_key)
                  (record cfg { echo_immediate = not (is_int 0 (atoi value)) }) _
                  (ground (arith, v))
                  (either-IsValid (same_nocase key echo_first_delay_key)
                    (record cfg { echo_first_delay = at_least 0 (atoi value) }) _
                    (ground (arith, v, at_least_is 0 (atoi value)))
                    (either-IsValid (same_nocase key echo_min_interval_key)
                      (record cfg { echo_min_interval = at_least 1 (atoi value) }) _
                      (ground (arith, v, at_least_is 1 (atoi value)))
                      (either-IsValid (same_nocase key echo_prefix_key)
                        (record cfg { echo_prefix = take 63 value }) _
                        (ground (arith, v, length-cut 63 value)) (v))))))))))

assign-IsValid :
    (atoi : List ℕ → ℤ) (key value : List ℕ) (cfg : Config)
    → IsValid cfg
    → IsValid (assign atoi key value cfg)
unfolding assign is_int
assign-IsValid atoi key value cfg v =
    either-IsValid (same_nocase key serial_port_key || same_nocase key comport_key)
      (record cfg { serial_port = take 255 value }) _ (ground (arith, v, length-cut 255 value))
      (either-IsValid (same_nocase key baudrate_key) (set_baudrate (atoi value) cfg) _
        (baud-IsValid (atoi value) cfg v)
        (either-IsValid (same_nocase key bit_parity_key)
          (record cfg { parity = str_to_parity value }) _ (ground (arith, v))
          (either-IsValid (same_nocase key bit_data_key)
            (record cfg { data_bits = one_of 7 8 (pos 8) (atoi value) }) _
            (ground (arith, v, one_of_is 7 8 8 (atoi value) refl))
            (either-IsValid (same_nocase key bit_stop_key)
              (record cfg { stop_bits = one_of 1 2 (pos 1) (atoi value) }) _
              (ground (arith, v, one_of_is 1 2 1 (atoi value) refl))
              (either-IsValid (same_nocase key flow_key)
                (record cfg { flow_control = str_to_flow value }) _ (ground (arith, v))
                (either-IsValid (same_nocase key modem_init_key)
                  (record cfg { modem_init_command = take 1023 value }) _
                  (ground (arith, v, length-cut 1023 value))
                  (either-IsValid (same_nocase key autoanswer_mode_key)
                    (record cfg { modem_autoanswer_mode = one_of 0 1 (pos 0) (atoi value) }) _
                    (ground (arith, v, one_of_is 0 1 0 (atoi value) refl))
                    (either-IsValid (same_nocase key autoanswer_software_key)
                      (record cfg { modem_autoanswer_software_command = take 1023 value }) _
                      (ground (arith, v, length-cut 1023 value))
                      (either-IsValid (same_nocase key autoanswer_hardware_key)
                        (record cfg { modem_autoanswer_hardware_command = take 1023 value }) _
                        (ground (arith, v, length-cut 1023 value))
                        (either-IsValid (same_nocase key autoanswer_key)
                          (record cfg { modem_autoanswer_software_command = take 1023 value }) _
                          (ground (arith, v, length-cut 1023 value))
                          (either-IsValid (same_nocase key modem_command_key)
                            (record cfg { modem_init_command = take 1023 value }) _
                            (ground (arith, v, length-cut 1023 value))
                            (late-IsValid atoi key value cfg v))))))))))))

line-IsValid :
    (atoi : List ℕ → ℤ) (line : List ℕ) (cfg : Config)
    → IsValid cfg
    → IsValid (parse_config_line atoi line cfg).1
unfolding parse_config_line
line-IsValid atoi line cfg v =
    let trimmed = trim_whitespace (before b'#' line) in by_value trimmed (behind b'=' trimmed)
  where
    by_value : (line : List ℕ) (o : Option (List ℕ)) → IsValid (parse_trimmed atoi line o cfg).1
    by_value line none = unfold parse_trimmed in either_second (length line == 0) _ _ v v
    by_value line (some value) = unfold parse_trimmed in assign-IsValid atoi _ _ cfg v

load_from-IsValid :
    (atoi : List ℕ → ℤ) (lines : List (List ℕ)) (cfg : Config)
    → IsValid cfg
    → IsValid (load atoi lines cfg)
unfolding load
load_from-IsValid atoi [] cfg v = v
load_from-IsValid atoi (line ∷ lines) cfg v =
    load_from-IsValid atoi lines (parse_config_line atoi line cfg).1 (line-IsValid atoi line cfg v)

-- What `config_validate` still has to find out.
unfoldable pub is_usable : Config → Bool
is_usable cfg =
    not (length cfg.serial_port == 0)
    && (not (cfg.baudrate == 0)
        && (not (length cfg.telnet_host == 0) && is_tcp_port cfg.telnet_port))

is_port_lem : (n : ℤ) → is_port n ≡ is_tcp_port n
unfolding is_port
is_port_lem (pos n) = ground arith
is_port_lem (negsuc n) = refl

validate_valid :
    (cfg : Config) → IsValid cfg → validate cfg ≡ (if is_usable cfg then success else error_config)
unfolding validate is_usable
validate_valid cfg v = ground (
  arith,
  is_int_lem 7 cfg.data_bits,
  is_int_lem 8 cfg.data_bits,
  is_int_lem 1 cfg.stop_bits,
  is_int_lem 2 cfg.stop_bits,
  is_port_lem cfg.telnet_port,
  v.data_bits_is,
  v.stop_bits_is,
)

-- Whatever lines the configuration file has, and whatever numbers `atoi` reads from them, the settings
-- that `config_load` makes of those of `config_init` have 7 or 8 data bits, 1 or 2 stop bits, the
-- answering mode 0 or 1 and delays from 0 and from 1 on, and every text fits its array; and
-- `config_validate` then accepts them exactly when the serial port and the host are not empty, the baud rate
-- is not `B0` and the telnet port is from 1 to 65535.
pub load-IsValid :
    (atoi : List ℕ → ℤ) (lines : List (List ℕ))
    → let cfg = load atoi lines init in
      IsValid cfg × (validate cfg ≡ (if is_usable cfg then success else error_config))
load-IsValid atoi lines =
    let v = load_from-IsValid atoi lines init init-IsValid in (v, validate_valid _ v)
