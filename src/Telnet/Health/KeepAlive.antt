-- ===== src/Telnet/Health/KeepAlive.antt =====
-- The keep-alive of src/telnet.c and its connection timeout.
use modembridge.Prelude.{
  ℕ, ◌+◌, ◌≤◌, ◌≡◌, ◌≢◌, refl, ◌∙◌, true, false, leb, Bool-cases, inl, inr, List, [], ◌∷◌, ◌++◌,
  arith, All, ap,
}
use modembridge.Common.{Status, success}
use modembridge.Telnet.State.{failed, Os, Telnet, is_open}
use modembridge.Telnet.Negotiate.{send_control}
use modembridge.Telnet.Send.{send_command, update_activity}
use modembridge.Telnet.Health.{after_ping, check_connection_health}
use modembridge.Telnet.Byte

-- A call of `telnet_check_connection_health`: the time, and the operating system at that time.
pub record Check : Type 0 where
  pub now : ℕ
  pub os : Os

-- The results of a history of calls, with nothing received between them.
pub check_all : List Check → Telnet → List Status
check_all [] tn = []
check_all (c ∷ cs) tn =
    let (status, t) = check_connection_health c.os c.now tn in status ∷ check_all cs t

-- `time` answers the time of the call, and `send` never reports an error (it may not take a byte).
pub record Answers (c : Check) : Type 0 where
  pub on_time : (log : List (List ℕ)) → c.os.time log ≡ c.now
  pub sends : (log : List (List ℕ)) (buf : List ℕ) → c.os.send log buf ≢ failed

-- The calls follow one another, and the call at `prev`, in steps of at most `gap` seconds.
abbrev pub Spaced : ℕ → ℕ → List Check → Type 0
Spaced gap prev [] = Unit
Spaced gap prev (c ∷ cs) = (c.now ≤ prev + gap) × Spaced gap c.now cs

-- A connection that is kept alive, after a call at `prev`.
pub record IsKept (gap prev : ℕ) (tn : Telnet) : Type 0 where
  pub opened : is_open tn.fd ≡ true
  pub connected : tn.is_connected ≡ true
  pub enabled : tn.keep_alive_enabled ≡ true
  pub early : tn.ping_interval + gap ≤ tn.connection_timeout
  pub pinged : tn.last_ping ≤ tn.last_activity
  pub active : prev + gap ≤ tn.last_activity + tn.connection_timeout

send_command_lem :
    (os : Os) (tn : Telnet) (command : ℕ)
    → is_open tn.fd ≡ true
    → ((log : List (List ℕ)) (buf : List ℕ) → os.send log buf ≢ failed)
    → send_command os tn command
      ≡ (success, record tn { requests = tn.requests ++ (Byte.iac ∷ command ∷ []) ∷ [] })
unfolding send_command send_control
send_command_lem os tn command h s = ground (arith, s tn.requests (Byte.iac ∷ command ∷ []))

-- The client after a ping.
abbrev pinged_at : Os → ℕ → Telnet → Telnet
pinged_at os now tn =
    let log = tn.requests ++ (Byte.iac ∷ Byte.nop ∷ []) ∷ [] in
    record tn { requests = log; last_ping = now; last_activity = os.time log }

module _ (c : Check) (tn : Telnet) where
  not_due :
      is_open tn.fd ≡ true
      → tn.is_connected ≡ true
      → c.now ≤ tn.last_activity + tn.connection_timeout
      → leb (tn.last_ping + tn.ping_interval) c.now ≡ false
      → check_connection_health c.os c.now tn ≡ (success, tn)
  unfolding check_connection_health
  not_due o n t d = ground arith

  due :
      is_open tn.fd ≡ true
      → tn.is_connected ≡ true
      → tn.keep_alive_enabled ≡ true
      → c.now ≤ tn.last_activity + tn.connection_timeout
      → leb (tn.last_ping + tn.ping_interval) c.now ≡ true
      → Answers c
      → check_connection_health c.os c.now tn ≡ (success, pinged_at c.os c.now tn)
  unfolding check_connection_health
  due o n e t d a =
      let s = send_command_lem c.os tn Byte.nop o a.sends in
      let sent = send_command c.os tn Byte.nop in
      let e1 : check_connection_health c.os c.now tn ≡ after_ping c.os c.now sent.0 sent.1 =
        ground arith in
      e1 ∙ ap (λ p. after_ping c.os c.now p.0 p.1) s ∙ unfold after_ping update_activity in refl

check-IsKept :
    (gap prev : ℕ) (c : Check) (tn : Telnet)
    → Answers c
    → c.now ≤ prev + gap
    → IsKept gap prev tn
    → let (status, t) = check_connection_health c.os c.now tn in
      (status ≡ success) × IsKept gap c.now t
check-IsKept gap prev c tn a h k =
    let in_time : c.now ≤ tn.last_activity + tn.connection_timeout = omega (arith, k.active) in
    elim (Bool-cases (leb (tn.last_ping + tn.ping_interval) c.now)) [
      | inl d ↦
          let log = tn.requests ++ (Byte.iac ∷ Byte.nop ∷ []) ∷ [] in
          let e = a.on_time log in
          rw (due c tn k.opened k.connected k.enabled in_time d a) (
            refl,
            record {
              opened = k.opened;
              connected = k.connected;
              enabled = k.enabled;
              early = k.early;
              pinged = omega (arith, e);
              active = omega (arith, e, k.early);
            },
          )
      | inr d ↦ rw (not_due c tn k.opened k.connected in_time d) (
        refl,
        record {
          opened = k.opened;
          connected = k.connected;
          enabled = k.enabled;
          early = k.early;
          pinged = k.pinged;
          active = ground (arith, k.pinged, k.early, d);
        },
      )
    ]

-- On an open connection that is kept alive, whose last ping is no later than its last activity: if
-- a call comes at least every `gap` seconds, the first of them before the connection timeout, `gap`
-- and the ping interval together are within that timeout, and `send` reports no error, then no call
-- reports the timeout, although nothing at all is received: each ping counts as activity.
pub check_all_succeeds :
    (gap prev : ℕ) (calls : List Check) (tn : Telnet)
    → All Answers calls
    → Spaced gap prev calls
    → IsKept gap prev tn
    → All (λ status. status ≡ success) (check_all calls tn)
unfolding check_all
check_all_succeeds gap prev [] tn a s k = tt
check_all_succeeds gap prev (c ∷ cs) tn (a, others) (h, s) k =
    let (e, k') = check-IsKept gap prev c tn a h k in
    (e, check_all_succeeds gap c.now cs (check_connection_health c.os c.now tn).1 others s k')
