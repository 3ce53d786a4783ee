-- ===== src/Telnet/Health/Recovery.antt =====
-- How errors lead to a new connection in src/telnet.c.
use modembridge.Prelude.{
  ℕ, ◌+◌, ◌≤◌, ◌<◌, ◌≡◌, ◌≢◌, refl, ap, ap₂, ◌∙◌, true, false, List, [], ◌∷◌, arith, length, leb,
  All,
}
use modembridge.Common.{Status}
use modembridge.Telnet.State.{Telnet}
use modembridge.Telnet.Health.{
  Errno, again, broken, other_errno, by_errno, handle_error, should_reconnect,
}

-- An I/O error, as `telnet_handle_error` is told of it: the time, `errno` and the code.
pub record Failure : Type 0 where
  pub at : ℕ
  pub errno : Errno
  pub code : Status

pub handle_failures : List Failure → Telnet → Telnet
handle_failures [] tn = tn
handle_failures (f ∷ fs) tn = handle_failures fs (handle_error f.at f.errno f.code tn).1

-- An error that is no mere "try again", at a time that is not the start of the epoch.
abbrev pub IsHard : Failure → Type 0
IsHard f = (f.errno ≢ again) × (0 < f.at)

-- The time of the last one.
abbrev pub last_at : Failure → List Failure → ℕ
last_at f [] = f.at
last_at f (g ∷ fs) = last_at g fs

-- What one such error leaves.
record Counted (tn t : Telnet) (now : ℕ) : Type 0 where
  counts : t.consecutive_errors ≡ tn.consecutive_errors + 1
  same_max : t.max_consecutive_errors ≡ tn.max_consecutive_errors
  same_auto : t.auto_reconnect ≡ tn.auto_reconnect
  same_interval : t.reconnect_interval ≡ tn.reconnect_interval
  noted : t.last_error_time ≡ now
  disconnects :
      tn.auto_reconnect ≡ true
      → tn.max_consecutive_errors ≤ t.consecutive_errors
      → t.is_connected ≡ false

handle_error-Counted :
    (now : ℕ) (errno : Errno) (code : Status) (tn : Telnet)
    → errno ≢ again
    → Counted tn (handle_error now errno code tn).1 now
unfolding handle_error by_errno
handle_error-Counted now again code tn h = absurd (h refl)
handle_error-Counted now broken code tn h = record {
  counts = ground arith;
  same_max = ground arith;
  same_auto = ground arith;
  same_interval = ground arith;
  noted = ground arith;
  disconnects = λ a m. ground arith;
}
handle_error-Counted now other_errno code tn h = record {
  counts = ground arith;
  same_max = ground arith;
  same_auto = ground arith;
  same_interval = ground arith;
  noted = ground arith;
  disconnects = λ a m. ground arith;
}

should_reconnect_lem :
    (now : ℕ) (tn : Telnet)
    → tn.auto_reconnect ≡ true
    → tn.is_connected ≡ false
    → 0 < tn.last_error_time
    → tn.max_consecutive_errors ≤ tn.consecutive_errors
    → should_reconnect now tn ≡ leb (tn.last_error_time + tn.reconnect_interval) now
unfolding should_reconnect
should_reconnect_lem now tn a c t m = ground arith

-- With automatic reconnection on, errors that are no mere "try again", at times other than 0, that
-- together with those counted before reach the maximum take the connection down. After the last of
-- them a reconnection is called for exactly when the interval since that error has passed.
pub handle_failures_reconnect :
    (f : Failure) (fs : List Failure) (tn : Telnet)
    → All IsHard (f ∷ fs)
    → tn.auto_reconnect ≡ true
    → tn.max_consecutive_errors ≤ tn.consecutive_errors + length (f ∷ fs)
    → let t = handle_failures (f ∷ fs) tn in
      (t.is_connected ≡ false)
      × ((now : ℕ) → should_reconnect now t ≡ leb (last_at f fs + tn.reconnect_interval) now)
unfolding handle_failures
handle_failures_reconnect f [] tn ((hard, late), a) auto m =
    let w = handle_error-Counted f.at f.errno f.code tn hard in
    let t = (handle_error f.at f.errno f.code tn).1 in
    let off = w.disconnects auto (omega (arith, w.counts)) in
    (
      off,
      λ now.
          should_reconnect_lem now t (w.same_auto ∙ auto) off (omega (arith, w.noted, late))
            (omega (arith, w.counts, w.same_max, m))
          ∙ ap₂ (λ a b. leb (a + b) now) w.noted w.same_interval,
    )
handle_failures_reconnect f (g ∷ fs) tn ((hard, late), a) auto m =
    let w = handle_error-Counted f.at f.errno f.code tn hard in
    let (off, due) =
      handle_failures_reconnect g fs (handle_error f.at f.errno f.code tn).1 a (w.same_auto ∙ auto)
        (omega (arith, w.counts, w.same_max, m)) in
    (off, λ now. due now ∙ ap (λ b. leb (last_at g fs + b) now) w.same_interval)
