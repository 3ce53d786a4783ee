-- ===== src/Level3/Machine/Cycle.antt =====
-- One whole call of `l3_process_state_machine` of src/level3.c where no timeout is due.
use modembridge.Prelude.{
  ℕ, ◌+◌, ◌≡◌, ◌≢◌, ◌⊎◌, inl, refl, sym, subst, ◌∙◌, Bool, true, false, arith, if◌then◌else◌,
}
use modembridge.Telnet.State.{Os}
use modembridge.Telnet.Connect.{Network}
use modembridge.Level3.State.{
  SystemState, uninitialized, connecting, terminated, same_state, Result, l3_success, Level3,
  is_valid_state_transition,
}
use modembridge.Level3.Monad.{Outcome, done, relocks, M, ◌>>=◌, ◌>>◌, return, unlock}
use modembridge.Level3.Machine.{
  is_state_timed_out, attempt, process_state, after_timeout, process_state_machine,
}
use modembridge.Level3.Machine.Locking.{with_mutex, timed_out-with_mutex}
use modembridge.Level3.Machine.Steps.{
  Finishes, next_state, IsOnline, Stepped, process_state-Stepped,
}

next_state-with_mutex :
    (os : Os) (net : Network) (now : ℕ) (s : SystemState) (c : Level3) (b : Bool)
    → next_state os net now s (with_mutex b c) ≡ next_state os net now s c
unfolding next_state attempt
next_state-with_mutex os net now connecting c b = ground arith
next_state-with_mutex os net now _ c b = refl

-- What one call does, towards the state `goal`.
pub record Serves (goal : SystemState) (c : Level3) (r : Result) (c' : Level3) : Type 0 where
  pub gives_back : c'.mutex_held ≡ false
  pub reaches : c'.system_state ≡ goal
  pub succeeds : r ≡ l3_success
  pub counted :
      c'.state_transitions
      ≡ (if same_state goal c.system_state then c.state_transitions else c.state_transitions + 1)
  pub online : IsOnline c → IsOnline c'

unlocked :
    (goal : SystemState) (c : Level3) (m : M Result)
    → Finishes (m (with_mutex true c)) (Stepped goal (with_mutex true c))
    → Finishes ((m >>= λ r. unlock >> return r) (with_mutex true c)) (Serves goal c)
unlocked goal c m f = by_outcome (m (with_mutex true c)) refl f
  where
    by_outcome :
        (o : Outcome Result)
        → m (with_mutex true c) ≡ o
        → Finishes o (Stepped goal (with_mutex true c))
        → Finishes ((m >>= λ r. unlock >> return r) (with_mutex true c)) (Serves goal c)
    by_outcome (done r c') e s =
        rw (e, ◌>>=◌)
          (record {
            gives_back = refl;
            reaches = s.reaches;
            succeeds = s.succeeds;
            counted = s.counted;
            online = s.online;
          })
    by_outcome (relocks c') e s = absurd s

pub process_state_machine_free :
    (os : Os) (net : Network) (now : ℕ) (c : Level3)
    → c.mutex_held ≡ false
    → is_state_timed_out now c ≡ false
    → process_state_machine os net now c
      ≡ (process_state os net now c.system_state >>= λ r. unlock >> return r) (with_mutex true c)
unfolding process_state_machine after_timeout
process_state_machine_free os net now c h t = rw h (rw (timed_out-with_mutex now c ∙ t) refl)

-- With the mutex free, no timeout due, and Level 3 initialised, `l3_process_state_machine` returns
-- success and gives the mutex back. The next state is the one that the signals of the moment ask
-- for; a move is counted, and none is made twice; and where data transfer implied an online filter
-- and an active Level 3, it still does.
pub process_state_machine-Serves :
    (os : Os) (net : Network) (now : ℕ) (c : Level3)
    → c.mutex_held ≡ false
    → is_state_timed_out now c ≡ false
    → c.system_state ≢ uninitialized
    → Finishes
        (process_state_machine os net now c)
        (Serves (next_state os net now c.system_state c) c)
process_state_machine-Serves os net now c h t n =
    let s = c.system_state in
    let held = with_mutex true c in
    let served =
      unlocked _ c (process_state os net now s)
        (process_state-Stepped os net now held refl s refl n) in
    let goal = next_state-with_mutex os net now s c true in
    subst (λ o. Finishes o (Serves (next_state os net now s c) c))
      (sym (process_state_machine_free os net now c h t))
      (subst
        (λ g. Finishes ((process_state os net now s >>= λ r. unlock >> return r) held) (Serves g c))
        goal served)

-- The state after one call.
next_state-valid :
    (os : Os) (net : Network) (now : ℕ) (s : SystemState) (c : Level3)
    → let s' = next_state os net now s c in
      ((s' ≡ s) ⊎ (is_valid_state_transition s s' ≡ true)) × (s ≡ terminated → s' ≡ terminated)
unfolding next_state is_valid_state_transition
next_state-valid os net now terminated c = (inl refl, λ e. refl)
next_state-valid os net now _ c = ground arith

pub Finishes_mono :
    {A : Type 0} (P Q : A → Level3 → Type 0) (o : Outcome A)
    → ((a : A) (c : Level3) → P a c → Q a c)
    → Finishes o P
    → Finishes o Q
Finishes_mono P Q (done a c) f p = f a c p
Finishes_mono P Q (relocks c) f p = absurd p

-- A call leaves the state as it is or makes a move that the table of valid transitions allows.
abbrev pub Moves : Level3 → Level3 → Type 0
Moves c c' =
    ((c'.system_state ≡ c.system_state)
      ⊎ (is_valid_state_transition c.system_state c'.system_state ≡ true))
    × (c.system_state ≡ terminated → c'.system_state ≡ terminated)

-- With the mutex free, no timeout due, and Level 3 initialised, one call of
-- `l3_process_state_machine` stays in its state or makes a move that the table of valid transitions
-- allows, whatever the signals, and it never leaves TERMINATED.
process_state_machine-Moves :
    (os : Os) (net : Network) (now : ℕ) (c : Level3)
    → c.mutex_held ≡ false
    → is_state_timed_out now c ≡ false
    → c.system_state ≢ uninitialized
    → Finishes (process_state_machine os net now c) (λ r c'. Moves c c')
process_state_machine-Moves os net now c h t n =
    let s = c.system_state in
    Finishes_mono (Serves (next_state os net now s c) c) (λ r c'. Moves c c')
      (process_state_machine os net now c)
      (λ r c' w.
        subst
          (λ s'.
            ((s' ≡ s) ⊎ (is_valid_state_transition s s' ≡ true))
            × (s ≡ terminated → s' ≡ terminated))
          (sym w.reaches) (next_state-valid os net now s c))
      (process_state_machine-Serves os net now c h t n)
