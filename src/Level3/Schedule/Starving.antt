-- ===== src/Level3/Schedule/Starving.antt =====
-- Which direction a turn of the scheduling of src/level3.c serves, by how long they wait.
use modembridge.Prelude.{
  ℕ, ◌+◌, ◌≡◌, refl, sym, ap, ◌∙◌, Bool, true, false, not, ◌&&◌, arith, ltb, ◌==◌, if◌then◌else◌,
  ◌⊎◌, inl, inr, none, some,
}
use modembridge.Level3.Schedule.State.{
  Direction, serial_to_telnet, telnet_to_serial, other, same, Doubles, Schedule,
  is_direction_starving,
}
use modembridge.Level3.Schedule.Turn.{
  Result, update_direction_priorities, calculate_adaptive_quantum_with_latency, enforce_direction,
  enforce_latency_boundaries, start_quantum, is_expired, expire_quantum, correct_starvation, finish,
  process_pipeline_with_quantum,
}

pub same-eq : (x y : Direction) → same x y ≡ true → x ≡ y
same-eq serial_to_telnet serial_to_telnet h = refl
same-eq telnet_to_serial telnet_to_serial h = refl
same-eq serial_to_telnet telnet_to_serial h = cc
same-eq telnet_to_serial serial_to_telnet h = cc

not_both : (a b : Bool) → b ≡ true → (not a && not b) ≡ false
not_both true b h = refl
not_both false b h = ground (arith, h)

impossible {ℓ} : {A : Type ℓ} → false ≡ true → A
impossible h = cc

module _ (d : Doubles) where
  -- What the questions about waiting look at.
  abbrev pub waits : Schedule d → ℕ × ℕ × ℕ × ℕ × ℕ
  waits s = (
    s.serial_starvation_time, s.telnet_starvation_time, s.starvation_threshold_ms,
    s.system_start_time, s.latency_bound_ms,
  )

  pub record SameWaits (s s' : Schedule d) : Type 0 where
    pub kept : waits s' ≡ waits s

  if-SameWaits :
      (b : Bool) (s : Schedule d) {x y : Schedule d}
      → SameWaits s x
      → SameWaits s y
      → SameWaits s (if b then x else y)
  if-SameWaits true s h k = h
  if-SameWaits false s h k = k

  transitive : (s t u : Schedule d) → SameWaits s t → SameWaits t u → SameWaits s u
  transitive s t u h k = record { kept = k.kept ∙ h.kept }

  pub start_quantum-SameWaits : (now : ℕ) (s : Schedule d) → SameWaits s (start_quantum d now s)
  start_quantum-SameWaits now s =
      if-SameWaits (s.start_time == 0) s (record { kept = refl }) (record { kept = refl })

  pub expire_quantum-SameWaits :
      (now seconds : ℕ) (s : Schedule d) → SameWaits s (expire_quantum d now seconds s)
  unfolding expire_quantum
  expire_quantum-SameWaits now seconds s = record { kept = ground arith }

  pub enforce_direction-SameWaits :
      (now : ℕ) (direction : Direction) (s : Schedule d)
      → SameWaits s (enforce_direction d now direction s)
  unfolding enforce_direction
  enforce_direction-SameWaits now direction s = record { kept = ground arith }

  priorities-SameWaits :
      (now : ℕ) (s : Schedule d) → SameWaits s (update_direction_priorities d now s)
  unfolding update_direction_priorities
  priorities-SameWaits now s = record { kept = ground arith }

  adaptive-SameWaits :
      (now : ℕ) (s : Schedule d) → SameWaits s (calculate_adaptive_quantum_with_latency d now s)
  unfolding calculate_adaptive_quantum_with_latency
  adaptive-SameWaits now s = record { kept = ground arith }

  enforce-SameWaits : (now : ℕ) (s : Schedule d) → SameWaits s (enforce_latency_boundaries d now s)
  unfolding enforce_latency_boundaries
  enforce-SameWaits now s =
      let s1 = enforce_direction d now serial_to_telnet s in
      let s2 = enforce_direction d now telnet_to_serial s1 in
      let weighed = update_direction_priorities d now s2 in
      let e : SameWaits s s2 =
        transitive s s1 s2 (enforce_direction-SameWaits now serial_to_telnet s)
          (enforce_direction-SameWaits now telnet_to_serial s1) in
      if-SameWaits _ s
        (transitive s s2 _ e
          (transitive s2 weighed _ (priorities-SameWaits now s2) (adaptive-SameWaits now weighed)))
        e

  pub starving-waits :
      (now : ℕ) (direction : Direction) (s t : Schedule d)
      → waits t ≡ waits s
      → is_direction_starving d now direction t ≡ is_direction_starving d now direction s
  unfolding is_direction_starving
  starving-waits now serial_to_telnet s t e = ap (λ w. ltb (w.0 + w.2) now) e
  starving-waits now telnet_to_serial s t e = ap (λ w. ltb (w.1 + w.2) now) e

  module _ (now seconds : ℕ) (s : Schedule d) where
    -- The state when the turn looks for a direction that starves.
    abbrev pub enforced : Schedule d
    enforced =
        enforce_latency_boundaries d now (expire_quantum d now seconds (start_quantum d now s))

    pub waits-enforced : waits enforced ≡ waits s
    waits-enforced =
        let x = start_quantum d now s in
        let y = expire_quantum d now seconds x in
        (enforce-SameWaits now y).kept
        ∙ (expire_quantum-SameWaits now seconds x).kept
        ∙ (start_quantum-SameWaits now s).kept

    starving_direction :
        (direction : Direction)
        → is_direction_starving d now direction s ≡ true
        → is_direction_starving d now (other direction) s ≡ false
        → (correct_starvation d now enforced).current_direction ≡ direction
    unfolding correct_starvation
    starving_direction serial_to_telnet starves fed =
        rw (starving-waits now serial_to_telnet s enforced waits-enforced, starves) refl
    starving_direction telnet_to_serial starves fed =
        rw
          (
            starving-waits now serial_to_telnet s enforced waits-enforced,
            fed,
            starving-waits now telnet_to_serial s enforced waits-enforced,
            starves,
          )
          refl

  -- What is processed, by whether the turn ends early.
  pub finish_processed :
      (b : Bool) (chunk : Direction → Result) (now later seconds : ℕ) (e c : Schedule d)
      → (finish d b chunk now later seconds e c).1 ≡ (if b then none else some c.current_direction)
  unfolding finish
  finish_processed true chunk now later seconds e c = refl
  finish_processed false chunk now later seconds e c = refl

  by_end :
      (b over : Bool) (taken starving : Direction)
      → taken ≡ starving
      → (over ≡ true → b ≡ false)
      → let processed = if b then none else some taken in
        ((processed ≡ some starving) ⊎ (processed ≡ none))
        × (over ≡ true → processed ≡ some starving)
  by_end true over taken starving e early = (inr refl, λ h. impossible (sym (early h)))
  by_end false over taken starving e early = (inl (ap some e), λ h. ap some e)

  -- When one direction starves and the other does not, a turn at the end of a quantum processes a
  -- chunk of the one that starves, and a turn within a quantum processes that or none.
  pub process_pipeline_with_quantum_serves :
      (chunk : Direction → Result) (now later seconds : ℕ) (asked starving : Direction)
      (s : Schedule d)
      → is_direction_starving d now starving s ≡ true
      → is_direction_starving d now (other starving) s ≡ false
      → let (_, processed, _) = process_pipeline_with_quantum d chunk now later seconds asked s in
        ((processed ≡ some starving) ⊎ (processed ≡ none))
        × (is_expired d now (start_quantum d now s) ≡ true → processed ≡ some starving)
  unfolding process_pipeline_with_quantum
  process_pipeline_with_quantum_serves chunk now later seconds asked starving s starves fed =
      let e = enforced now seconds s in
      let over = is_expired d now (start_quantum d now s) in
      let c = correct_starvation d now e in
      let b = not (same e.current_direction asked) && not over in
      rw (finish_processed b chunk now later seconds e c) (
        by_end b over c.current_direction starving
          (starving_direction now seconds s starving starves fed)
          (not_both (same e.current_direction asked) over))
