-- ===== src/Level3/Machine/Steps.antt =====
-- What one call of `l3_process_state_machine` of src/level3.c does where no timeout is due.
use modembridge.Prelude.{
  ℕ, ◌+◌, ◌≡◌, ◌≢◌, inl, inr, refl, sym, ap, ◌∙◌, Bool, true, false, not, ◌&&◌, arith, ◌==◌,
  if◌then◌else◌, Bool-cases,
}
use modembridge.Telnet.State.{Os}
use modembridge.Telnet.Send.{is_connected}
use modembridge.Telnet.Connect.{Network}
use modembridge.Level3.DoubleBuffer.{available}
use modembridge.Level3.State.{
  SystemState, uninitialized, initializing, ready, connecting, negotiating, data_transfer, flushing,
  shutting_down, terminated, error, same_state, connect_timeout, shutdown_timeout, Result,
  l3_success, Level3, is_valid_state_transition,
}
use modembridge.Level3.Monad.{Outcome, done, relocks, M}
use modembridge.Level3.Machine.{
  enter, transition, process_initializing, process_ready, attempt, process_connecting,
  process_negotiating, process_data_transfer, process_flushing, process_shutting_down,
  process_terminated, process_state,
}
use modembridge.Level3.Machine.Locking.{with_mutex, moved, transition_lem}

-- The call gives back a result and a context, and these are as described.
abbrev pub Finishes {ℓ} : {A : Type ℓ} → Outcome A → (A → Level3 → Type 0) → Type 0
Finishes (done a c) P = P a c
Finishes (relocks c) P = ⊥

-- The state after one call, from the context before it.
unfoldable pub next_state : Os → Network → ℕ → SystemState → Level3 → SystemState
next_state os net now initializing c =
    if c.serial_ready && c.modem_ready then ready else initializing
next_state os net now ready c = if c.dcd_rising_detected then connecting else ready
next_state os net now connecting c =
    if is_connected (attempt os net now c).telnet then data_transfer else connecting
next_state os net now negotiating c = if c.negotiation_complete then data_transfer else negotiating
next_state os net now data_transfer c = if not c.dcd_state then flushing else data_transfer
next_state os net now flushing c =
    if available c.serial_buffers == 0 && available c.telnet_buffers == 0
    then shutting_down
    else flushing
next_state os net now shutting_down c = terminated
next_state os net now terminated c = terminated
next_state os net now error c = ready
next_state os net now uninitialized c = uninitialized

-- In data transfer the Hayes filter is online and Level 3 is active.
abbrev pub IsOnline : Level3 → Type 0
IsOnline c = (c.system_state ≡ data_transfer → (c.in_online_mode ≡ true) × (c.level3_active ≡ true))

pub record Stepped (goal : SystemState) (c : Level3) (r : Result) (c' : Level3) : Type 0 where
  pub held : c'.mutex_held ≡ true
  pub reaches : c'.system_state ≡ goal
  pub succeeds : r ≡ l3_success
  pub counted :
      c'.state_transitions
      ≡ (if same_state goal c.system_state then c.state_transitions else c.state_transitions + 1)
  pub online : IsOnline c → IsOnline c'

valid-ne : (s t : SystemState) → is_valid_state_transition s t ≡ true → same_state t s ≡ false
unfolding is_valid_state_transition
valid-ne uninitialized t h = ground arith
valid-ne _ t h = ground arith

module _ (now : ℕ) (s : SystemState) (t : ℕ) (c c0 : Level3) where
  enter-Stepped :
      c.system_state ≡ c0.system_state
      → c.state_transitions ≡ c0.state_transitions
      → is_valid_state_transition c0.system_state s ≡ true
      → (s ≡ data_transfer → c.level3_active ≡ true)
      → Stepped s c0 l3_success (with_mutex true (enter now s t c))
  unfolding enter
  enter-Stepped e n v a = record {
    held = ground arith;
    reaches = ground arith;
    succeeds = refl;
    counted = ground (arith, valid-ne c0.system_state s v);
    online = λ o d.
        let sd : s ≡ data_transfer = ground arith in
        let active = a sd in (ground (arith, sd), ground (arith, sd, active));
  }

  transition-Stepped :
      c.system_state ≡ c0.system_state
      → c.state_transitions ≡ c0.state_transitions
      → is_valid_state_transition c0.system_state s ≡ true
      → (s ≡ data_transfer → c.level3_active ≡ true)
      → Finishes (transition now s t c) (Stepped s c0)
  unfolding moved
  transition-Stepped e n v a =
      rw transition_lem (rw (ap (λ x. is_valid_state_transition x s) e ∙ v) (enter-Stepped e n v a))

-- A call that stays where it is.
stay :
    (c c' : Level3) (s : SystemState)
    → c.system_state ≡ s
    → c'.mutex_held ≡ true
    → c'.system_state ≡ c.system_state
    → c'.state_transitions ≡ c.state_transitions
    → (IsOnline c → IsOnline c')
    → Stepped s c l3_success c'
stay c c' s e h st t o = record {
  held = h;
  reaches = st ∙ e;
  succeeds = refl;
  counted = ground arith;
  online = o;
}

branch :
    (b : Bool) (m k : M Result) (s t : SystemState) (c c0 : Level3)
    → (b ≡ true → Finishes (m c) (Stepped s c0))
    → (b ≡ false → Finishes (k c) (Stepped t c0))
    → Finishes ((if b then m else k) c) (Stepped (if b then s else t) c0)
branch true m k s t c c0 f g = f refl
branch false m k s t c c0 f g = g refl

module _ (os : Os) (net : Network) (now : ℕ) (c : Level3) (h : c.mutex_held ≡ true) where
  -- Every branch that moves on: the state it starts from, and where it goes.
  goes :
      (from s : SystemState) (t : ℕ) (c' : Level3)
      → c.system_state ≡ from
      → c'.system_state ≡ c.system_state
      → c'.state_transitions ≡ c.state_transitions
      → is_valid_state_transition from s ≡ true
      → (s ≡ data_transfer → c'.level3_active ≡ true)
      → Finishes (transition now s t c') (Stepped s c)
  goes from s t c' e es et v a =
      transition-Stepped now s t c' c es et (ap (λ x. is_valid_state_transition x s) e ∙ v) a

  process_initializing-Stepped :
      c.system_state ≡ initializing
      → Finishes
          (process_initializing os net now c)
          (Stepped (next_state os net now initializing c) c)
  unfolding process_initializing next_state is_valid_state_transition
  process_initializing-Stepped e =
      let noted = record c {
        level1_ready = c.serial_ready && c.modem_ready;
        level2_ready = is_connected c.telnet;
      } in
      branch (c.serial_ready && c.modem_ready) _ _ _ _ _ c
        (λ _. goes initializing ready 0 noted e refl refl refl (λ d. cc))
        (λ _. stay c _ initializing e h refl refl (λ o. o))

  process_ready-Stepped :
      c.system_state ≡ ready
      → Finishes (process_ready os net now c) (Stepped (next_state os net now ready c) c)
  unfolding process_ready next_state is_valid_state_transition
  process_ready-Stepped e =
      let noted = record c {
        level2_ready = is_connected c.telnet;
        dcd_rising_detected = false;
        connection_attempted = false;
        transition_logged = false;
      } in
      branch c.dcd_rising_detected _ _ _ _ _ c
        (λ _. goes ready connecting connect_timeout noted e refl refl refl (λ d. cc))
        (λ _. stay c _ ready e h refl refl (λ o. o))

  attempt_lem :
      let c' = attempt os net now c in
      (c'.mutex_held ≡ c.mutex_held)
      × (c'.system_state ≡ c.system_state)
      × (c'.state_transitions ≡ c.state_transitions)
      × (c'.in_online_mode ≡ c.in_online_mode)
      × (c'.level3_active ≡ c.level3_active)
  unfolding attempt
  attempt_lem = (ground arith, ground arith, ground arith, ground arith, ground arith)

  process_connecting-Stepped :
      c.system_state ≡ connecting
      → Finishes (process_connecting os net now c) (Stepped (next_state os net now connecting c) c)
  unfolding process_connecting next_state is_valid_state_transition
  process_connecting-Stepped e =
      let (m, s, t, o, a) = attempt_lem in
      let tried = attempt os net now c in
      let up = record tried {
        level2_ready = is_connected tried.telnet;
        transition_logged = true;
        negotiation_complete = true;
        level3_active = true;
      } in
      branch (is_connected (attempt os net now c).telnet) _ _ _ _ _ c
        (λ _. goes connecting data_transfer 0 up e s t refl (λ d. refl))
        (λ _.
          stay c _ connecting e (m ∙ h) s t (λ q d. let (x, y) = q (sym s ∙ d) in (o ∙ x, a ∙ y)))

  process_negotiating-Stepped :
      c.system_state ≡ negotiating
      → Finishes
          (process_negotiating os net now c)
          (Stepped (next_state os net now negotiating c) c)
  unfolding process_negotiating next_state is_valid_state_transition
  process_negotiating-Stepped e =
      branch c.negotiation_complete _ _ _ _ _ c
        (λ _.
          goes negotiating data_transfer 0 (record c { level3_active = true }) e refl refl refl
            (λ d. refl))
        (λ _. stay c c negotiating e h refl refl (λ o. o))

  process_data_transfer-Stepped :
      c.system_state ≡ data_transfer
      → Finishes
          (process_data_transfer os net now c)
          (Stepped (next_state os net now data_transfer c) c)
  unfolding process_data_transfer next_state is_valid_state_transition
  process_data_transfer-Stepped e =
      branch (not c.dcd_state) _ _ _ _ _ c
        (λ _. goes data_transfer flushing shutdown_timeout c e refl refl refl (λ d. cc))
        (λ _. stay c c data_transfer e h refl refl (λ o. o))

  process_flushing-Stepped :
      c.system_state ≡ flushing
      → Finishes (process_flushing os net now c) (Stepped (next_state os net now flushing c) c)
  unfolding process_flushing next_state is_valid_state_transition
  process_flushing-Stepped e =
      branch (available c.serial_buffers == 0 && available c.telnet_buffers == 0) _ _ _ _ _ c
        (λ _. goes flushing shutting_down 5 c e refl refl refl (λ d. cc))
        (λ _. stay c c flushing e h refl refl (λ o. o))

  process_shutting_down-Stepped :
      c.system_state ≡ shutting_down
      → Finishes (process_shutting_down os net now c) (Stepped terminated c)
  unfolding process_shutting_down is_valid_state_transition
  process_shutting_down-Stepped e =
      goes shutting_down terminated 0 (record c { level3_active = false }) e refl refl refl
        (λ d. cc)

  process_terminated-Stepped :
      c.system_state ≡ terminated
      → Finishes (process_terminated os net now c) (Stepped terminated c)
  unfolding process_terminated
  process_terminated-Stepped e = elim (Bool-cases c.shutdown_requested) [
    | inl asked ↦ simp asked (stay c _ terminated e h refl refl (λ o. o))
    | inr not_asked ↦ simp not_asked (stay c c terminated e h refl refl (λ o. o))
  ]

  process_error-Stepped :
      c.system_state ≡ error → Finishes (transition now ready 0 c) (Stepped ready c)
  unfolding is_valid_state_transition
  process_error-Stepped e = goes error ready 0 c e refl refl refl (λ d. cc)

  pub process_state-Stepped :
      (s : SystemState)
      → c.system_state ≡ s
      → s ≢ uninitialized
      → Finishes (process_state os net now s c) (Stepped (next_state os net now s c) c)
  process_state-Stepped initializing e n = unfold process_state in process_initializing-Stepped e
  process_state-Stepped ready e n = unfold process_state in process_ready-Stepped e
  process_state-Stepped connecting e n = unfold process_state in process_connecting-Stepped e
  process_state-Stepped negotiating e n = unfold process_state in process_negotiating-Stepped e
  process_state-Stepped data_transfer e n = unfold process_state in process_data_transfer-Stepped e
  process_state-Stepped flushing e n = unfold process_state in process_flushing-Stepped e
  process_state-Stepped shutting_down e n =
      unfold process_state next_state in process_shutting_down-Stepped e
  process_state-Stepped terminated e n =
      unfold process_state next_state in process_terminated-Stepped e
  process_state-Stepped error e n = unfold process_state next_state in process_error-Stepped e
  process_state-Stepped uninitialized e n = absurd (n refl)
