-- ===== src/Level3/Machine/Locking.antt =====
-- When the calls of src/level3.c's state machine give `state_mutex` back, and when the thread asks
-- for it a second time while it holds it.
use modembridge.Prelude.{
  ℕ, ◌≡◌, refl, sym, ap, subst, ◌∙◌, Bool-cases, inl, inr, Bool, true, false, ◌||◌, arith,
  if◌then◌else◌,
}
use modembridge.Telnet.State.{Os}
use modembridge.Telnet.Connect.{Network}
use modembridge.Level3.State.{
  SystemState, initializing, ready, connecting, negotiating, data_transfer, flushing, shutting_down,
  terminated, error, same_state, shutdown_timeout, Result, l3_success, invalid_state, Level3,
  is_valid_state_transition,
}
use modembridge.Level3.Monad.{Outcome, done, relocks, M, ◌>>=◌, ◌>>◌, return, unlock}
use modembridge.Level3.Machine.{
  enter, set_system_state, is_state_timed_out, timeout_of, handle_state_timeout, transition,
  after_timeout, process_state_machine, fall, on_dcd_falling,
}

abbrev pub with_mutex : Bool → Level3 → Level3
with_mutex b c = record c { mutex_held = b }

abbrev pub Relocks {ℓ} : {A : Type ℓ} → Outcome A → Type 0
Relocks (done a c) = ⊥
Relocks (relocks c) = Unit

set_system_state_held :
    (now : ℕ) (s : SystemState) (t : ℕ) (c : Level3)
    → c.mutex_held ≡ true
    → set_system_state now s t c ≡ relocks c
unfolding set_system_state
set_system_state_held now s t c h = rw h

timeout_of_held :
    (now : ℕ) (s : SystemState) (c : Level3) → c.mutex_held ≡ true → Relocks (timeout_of now s c)
unfolding timeout_of
timeout_of_held now initializing c h = rw (set_system_state_held now ready 0 c h) tt
timeout_of_held now connecting c h = rw (set_system_state_held now ready 0 c h) tt
timeout_of_held now negotiating c h =
    rw (set_system_state_held now data_transfer 0 (record c { negotiation_complete = true }) h) tt
timeout_of_held now flushing c h = rw (set_system_state_held now shutting_down 5 c h) tt
timeout_of_held now shutting_down c h = rw (set_system_state_held now terminated 0 c h) tt
timeout_of_held now _ c h = rw (set_system_state_held now error 0 c h) tt

Relocks-bind :
    {A B : Type 0} (o : Outcome A) (f : A → M B) (c : Level3) (m : M A)
    → m c ≡ o
    → Relocks o
    → Relocks ((m >>= f) c)
Relocks-bind (done a c') f c m e h = absurd h
Relocks-bind (relocks c') f c m e h = rw (e, ◌>>=◌) tt

pub timed_out-with_mutex :
    (now : ℕ) (c : Level3) → is_state_timed_out now (with_mutex true c) ≡ is_state_timed_out now c
unfolding is_state_timed_out
timed_out-with_mutex now c = refl

-- With the mutex free, and the time of a state run out, `l3_process_state_machine` takes the mutex
-- and then, through `l3_handle_state_timeout`, asks for it again, whatever the state.
pub process_state_machine_timed_out :
    (os : Os) (net : Network) (now : ℕ) (c : Level3)
    → c.mutex_held ≡ false
    → is_state_timed_out now c ≡ true
    → Relocks (process_state_machine os net now c)
unfolding process_state_machine
process_state_machine_timed_out os net now c h t =
    let held = with_mutex true c in
    rw h (
      rw (timed_out-with_mutex now c ∙ t) (
        Relocks-bind _ (after_timeout os net now c.system_state) held (handle_state_timeout now)
          refl (unfold handle_state_timeout in timeout_of_held now c.system_state held refl)))

-- What a call of `l3_set_system_state` between an unlock and a lock does.
unfoldable pub moved : ℕ → SystemState → ℕ → Level3 → Level3
moved now s t c = if is_valid_state_transition c.system_state s then enter now s t c else c

abbrev pub answer : SystemState → Level3 → Result
answer s c = if is_valid_state_transition c.system_state s then l3_success else invalid_state

pub transition_lem :
    (now : ℕ) (s : SystemState) (t : ℕ) (c : Level3)
    → transition now s t c ≡ done (answer s c) (with_mutex true (moved now s t c))
unfolding transition set_system_state moved enter
transition_lem now s t c = ground arith

abbrev pub is_connection_state : SystemState → Bool
is_connection_state s =
    same_state s data_transfer || same_state s connecting || same_state s negotiating

fall_held :
    (now : ℕ) (s : SystemState) (c : Level3)
    → c.mutex_held ≡ true
    → is_connection_state s ≡ true
    → Relocks (fall now s c)
unfolding fall
fall_held now data_transfer c h e = rw (set_system_state_held now flushing shutdown_timeout c h) tt
fall_held now connecting c h e = rw (set_system_state_held now ready 0 c h) tt
fall_held now negotiating c h e = rw (set_system_state_held now ready 0 c h) tt
fall_held now _ c h e = cc

fall_other :
    (now : ℕ) (s : SystemState) (c : Level3)
    → is_connection_state s ≡ false
    → fall now s c ≡ done l3_success c
unfolding fall
fall_other now data_transfer c e = cc
fall_other now connecting c e = cc
fall_other now negotiating c e = cc
fall_other now _ c e = refl

abbrev fallen : Level3 → Level3
fallen c = record c { mutex_held = true; dcd_state = false; dcd_rising_detected = false }

finish_fall : M Result
finish_fall = do unlock; return l3_success

on_dcd_falling_free :
    (now : ℕ) (c : Level3)
    → c.mutex_held ≡ false
    → on_dcd_falling now c ≡ (fall now c.system_state >>= λ _. finish_fall) (fallen c)
unfolding on_dcd_falling finish_fall
on_dcd_falling_free now c h = rw h

-- What `l3_on_dcd_falling` does, by whether a connection is up or being made.
abbrev pub Falls : Bool → ℕ → Level3 → Type 0
Falls true now c = Relocks (on_dcd_falling now c)
Falls false now c =
    on_dcd_falling now c
    ≡ done l3_success (record c { dcd_state = false; dcd_rising_detected = false })

fell : Level3 → Bool → Outcome Result
fell c b =
    done l3_success (record c { mutex_held = b; dcd_state = false; dcd_rising_detected = false })

-- DCD falls, with the mutex free. While a connection is up or being made, `l3_on_dcd_falling` takes
-- the mutex and then, in `l3_set_system_state`, asks for it again, so the connection is not brought
-- down. In every other state it notes the fall and gives the mutex back.
pub on_dcd_falling-Falls :
    (now : ℕ) (c : Level3) → c.mutex_held ≡ false → Falls (is_connection_state c.system_state) now c
unfolding fell
on_dcd_falling-Falls now c h =
    let free = on_dcd_falling_free now c h in
    elim (Bool-cases (is_connection_state c.system_state)) [
      | inl e ↦
          subst (λ b. Falls b now c) (sym e)
            (rw free (
              Relocks-bind _ (λ _. finish_fall) (fallen c) (fall now c.system_state) refl
                (fall_held now c.system_state (fallen c) refl e)))
      | inr e ↦
          subst (λ b. Falls b now c) (sym e)
            (free
              ∙ rw (fall_other now c.system_state (fallen c) e, ◌>>=◌)
                  (unfold finish_fall in ap (fell c) (sym h)))
    ]
