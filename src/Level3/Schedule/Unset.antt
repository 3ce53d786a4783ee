-- ===== src/Level3/Schedule/Unset.antt =====
-- The scheduling of src/level3.c with the latency bound that no function of the file sets.
use modembridge.Prelude.{
  ℕ, ◌+◌, ◌-◌, ◌*◌, ◌/◌, ◌<◌, ◌≡◌, refl, ap, ◌∙◌, Bool, true, false, not, ◌&&◌, ◌||◌, arith, leb,
  lt→ltb, ◌==◌, if◌then◌else◌, Bool-cases, ◌⊎◌, inl, inr, none, some,
}
use modembridge.Level3.Schedule.State.{
  Direction, serial_to_telnet, telnet_to_serial, same, Doubles, Schedule, get_direction_wait_time,
  is_direction_starving, detect_latency_violation, should_force_direction_switch,
}
use modembridge.Level3.Schedule.Turn.{
  Result, update_direction_priorities, calculate_adaptive_quantum_with_latency, enforce_direction,
  enforce_latency_boundaries, start_quantum, is_expired, expire_quantum, correct_starvation,
  process_pipeline_with_quantum,
}
use modembridge.Level3.Schedule.Starving.{
  same-eq, finish_processed, waits, starving-waits, enforced, enforce_direction-SameWaits,
  waits-enforced, start_quantum-SameWaits, expire_quantum-SameWaits,
}

telnet_or_none :
    (b : Bool)
    → let processed = if b then none else some telnet_to_serial in
      (processed ≡ some telnet_to_serial) ⊎ (processed ≡ none)
telnet_or_none true = inr refl
telnet_or_none false = inl refl

module _ (d : Doubles) where
  wait-waits :
      (now : ℕ) (s t : Schedule d)
      → waits d t ≡ waits d s
      → get_direction_wait_time d now telnet_to_serial t
        ≡ get_direction_wait_time d now telnet_to_serial s
  unfolding get_direction_wait_time
  wait-waits now s t e = ap (λ w. now - (if w.1 == 0 then w.3 else w.1)) e

  -- With a bound of 0 every wait is too long.
  detect_unset :
      (now : ℕ) (s : Schedule d)
      → s.latency_bound_ms ≡ 0
      → 0 < get_direction_wait_time d now telnet_to_serial s
      → detect_latency_violation d now telnet_to_serial s ≡ true
  unfolding detect_latency_violation
  detect_unset now s unset long = ground arith

  force_unset :
      (now : ℕ) (s : Schedule d)
      → s.latency_bound_ms ≡ 0
      → 0 < get_direction_wait_time d now telnet_to_serial s
      → same s.current_direction telnet_to_serial ≡ false
      → should_force_direction_switch d now telnet_to_serial s ≡ true
  unfolding should_force_direction_switch get_direction_wait_time
  force_unset now s unset long away =
      let zero_bound : (if leb s.serial_baudrate 2400 then 0 * 3 / 2 else 0) * 3 / 2 ≡ 0 =
        elim (Bool-cases (leb s.serial_baudrate 2400)) [
          | inl slow ↦ rw slow refl
          | inr fast ↦ rw fast refl
        ] in
      rw (away, unset, zero_bound, lt→ltb _ _ long) refl

  enforced_telnet :
      (now : ℕ) (s : Schedule d)
      → s.latency_bound_ms ≡ 0
      → 0 < get_direction_wait_time d now telnet_to_serial s
      → (enforce_direction d now telnet_to_serial s).current_direction ≡ telnet_to_serial
  unfolding enforce_direction
  enforced_telnet now s unset long = elim (Bool-cases (same s.current_direction telnet_to_serial)) [
    | inl there ↦ stays _ (same-eq s.current_direction telnet_to_serial there)
    | inr away ↦ rw (detect_unset now s unset long, force_unset now s unset long away) refl
  ]
    where
      stays :
          (b : Bool)
          → s.current_direction ≡ telnet_to_serial
          → (if b
              then record s {
                current_direction = telnet_to_serial;
                active_pipeline = telnet_to_serial;
                slice_bytes = 0;
              }
              else s).current_direction
            ≡ telnet_to_serial
      stays true h = refl
      stays false h = h

  current-adaptive :
      (now : ℕ) (s : Schedule d)
      → (calculate_adaptive_quantum_with_latency d now s).current_direction ≡ s.current_direction
  unfolding calculate_adaptive_quantum_with_latency
  current-adaptive now s = ground arith

  current-priorities :
      (now : ℕ) (s : Schedule d)
      → (update_direction_priorities d now s).current_direction ≡ s.current_direction
  unfolding update_direction_priorities
  current-priorities now s = ground arith

  -- The direction that the enforcement of the bound leaves.
  enforced_unset :
      (now : ℕ) (s : Schedule d)
      → s.latency_bound_ms ≡ 0
      → 0 < get_direction_wait_time d now telnet_to_serial s
      → (enforce_latency_boundaries d now s).current_direction ≡ telnet_to_serial
  unfolding enforce_latency_boundaries
  enforced_unset now s unset long =
      let s1 = enforce_direction d now serial_to_telnet s in
      let s2 = enforce_direction d now telnet_to_serial s1 in
      let kept = (enforce_direction-SameWaits d now serial_to_telnet s).kept in
      let at_telnet : s2.current_direction ≡ telnet_to_serial =
        enforced_telnet now s1 (ap (λ w. w.4) kept ∙ unset)
          (omega (arith, wait-waits now s s1 kept)) in
      elim (Bool-cases (
        detect_latency_violation d now serial_to_telnet s
        || detect_latency_violation d now telnet_to_serial s1)) [
          | inl violated ↦ rw violated (
              current-adaptive now (update_direction_priorities d now s2)
              ∙ current-priorities now s2
              ∙ at_telnet)
          | inr fine ↦ rw fine at_telnet
        ]

  corrected_unset :
      (now : ℕ) (s : Schedule d)
      → s.current_direction ≡ telnet_to_serial
      → is_direction_starving d now serial_to_telnet s ≡ false
      → (correct_starvation d now s).current_direction ≡ telnet_to_serial
  unfolding correct_starvation
  corrected_unset now s at_telnet fed =
      elim (Bool-cases (is_direction_starving d now telnet_to_serial s)) [
        | inl starves ↦ rw (fed, starves) refl
        | inr neither ↦ rw (fed, neither) at_telnet
      ]

  -- No function of the program sets the latency bound, so it is 0 as `memset` leaves it. Then, when
  -- the direction from telnet to serial has waited at all, a turn never processes a chunk of the
  -- other direction, unless that has starved: it processes one from telnet to serial, or none.
  pub process_pipeline_with_quantum_unset :
      (chunk : Direction → Result) (now later seconds : ℕ) (asked : Direction) (s : Schedule d)
      → s.latency_bound_ms ≡ 0
      → 0 < get_direction_wait_time d now telnet_to_serial s
      → is_direction_starving d now serial_to_telnet s ≡ false
      → let (_, processed, _) = process_pipeline_with_quantum d chunk now later seconds asked s in
        (processed ≡ some telnet_to_serial) ⊎ (processed ≡ none)
  unfolding process_pipeline_with_quantum
  process_pipeline_with_quantum_unset chunk now later seconds asked s unset long fed =
      let x = start_quantum d now s in
      let y = expire_quantum d now seconds x in
      let kept : waits d y ≡ waits d s =
        (expire_quantum-SameWaits d now seconds x).kept ∙ (start_quantum-SameWaits d now s).kept in
      let e = enforced d now seconds s in
      let b = not (same e.current_direction asked) && not (is_expired d now x) in
      let at_telnet : e.current_direction ≡ telnet_to_serial =
        enforced_unset now y (ap (λ w. w.4) kept ∙ unset)
          (omega (arith, wait-waits now s y kept)) in
      let corrected =
        corrected_unset now e at_telnet
          (starving-waits d now serial_to_telnet s e (waits-enforced d now seconds s) ∙ fed) in
      rw (finish_processed d b chunk now later seconds e (correct_starvation d now e), corrected)
        (telnet_or_none b)

  -- With a wait of 0 in one direction and more in the other, the weight of the first is 0, although
  -- both are to have at least 1: the minimum is set before the weights are scaled to make ten. Of
  -- the arithmetic only two values are asked: of nothing the share is 0, and of the whole it is 10.
  update_direction_priorities_starves :
      (now : ℕ) (s : Schedule d)
      → ((n : ℕ) → d.share 0 n ≡ 0)
      → ((n : ℕ) → 0 < n → d.share n n ≡ 10)
      → get_direction_wait_time d now serial_to_telnet s ≡ 0
      → 0 < get_direction_wait_time d now telnet_to_serial s
      → ((update_direction_priorities d now s).serial_weight ≡ 0)
        × ((update_direction_priorities d now s).telnet_weight ≡ 10)
  unfolding update_direction_priorities
  update_direction_priorities_starves now s nothing whole served long =
      let serial = get_direction_wait_time d now serial_to_telnet s in
      let telnet = get_direction_wait_time d now telnet_to_serial s in
      let none_of : d.share serial (serial + telnet) ≡ 0 =
        ap (λ n. d.share n (n + telnet)) served ∙ nothing (0 + telnet) in
      let only : serial + telnet ≡ telnet = omega (arith, served) in
      let all_of : d.share telnet (serial + telnet) ≡ 10 =
        ap (d.share telnet) only ∙ whole telnet long in
      let some_wait : (serial + telnet == 0) ≡ false = ground arith in
      rw (some_wait, none_of, all_of) (refl, refl)
