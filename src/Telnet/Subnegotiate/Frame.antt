-- ===== src/Telnet/Subnegotiate/Frame.antt =====
-- The frames that `telnet_send_subnegotiation` of src/telnet.c builds, and their way through the
-- receiving machine. The array `buf` holds BUFFER_SIZE bytes.
use modembridge.Prelude.{
  ℕ, ◌+◌, ◌-◌, ◌*◌, ◌≤◌, ◌≡◌, refl, ap, false, List, [], ◌∷◌, ◌++◌, arith, length, length-append,
  ◌==◌, All,
}
use modembridge.Common.{buffer_size}
use modembridge.Telnet.Output.Escape.{escape, length-escape-le}
use modembridge.Telnet.Subnegotiate.{frame_body, frame}
use modembridge.Telnet.Byte

frame_body-escape :
    (cs : List ℕ) (pos : ℕ) → pos + 2 * length cs ≤ buffer_size - 2 → frame_body pos cs ≡ escape cs
unfolding frame_body escape
frame_body-escape [] pos h = refl
frame_body-escape (c ∷ cs) pos h =
    ground (arith, frame_body-escape cs (pos + 2), frame_body-escape cs (pos + 1))

-- A payload of at most 2046 bytes is framed whole: IAC SB, the payload with IAC doubled, IAC SE.
-- The frame then fits `buf`.
pub frame-escape :
    (payload : List ℕ)
    → length payload ≤ 2046
    → (frame payload ≡ Byte.iac ∷ Byte.sb ∷ (escape payload ++ Byte.iac ∷ Byte.se ∷ []))
      × (length (frame payload) ≤ buffer_size)
unfolding frame
frame-escape payload h =
    let e = frame_body-escape payload 2 (omega arith) in
    (
      rw e,
      rw e (
          omega (
            arith,
            length-escape-le payload,
            length-append (escape payload) (Byte.iac ∷ Byte.se ∷ []),
          )),
    )

frame_body_plain :
    (xs ys : List ℕ) (pos : ℕ)
    → All (λ x. (x == Byte.iac) ≡ false) xs
    → pos + length xs ≤ buffer_size - 2
    → frame_body pos (xs ++ ys) ≡ xs ++ frame_body (pos + length xs) ys
unfolding frame_body
frame_body_plain [] ys pos a h = ap (λ p. frame_body p ys) (omega arith)
frame_body_plain (x ∷ xs) ys pos (e, a) h =
    rw e (ground (arith, frame_body_plain xs ys (pos + 1) a))

frame_body_stops : (ys : List ℕ) (pos : ℕ) → buffer_size - 2 ≤ pos → frame_body pos ys ≡ []
unfolding frame_body
frame_body_stops [] pos h = refl
frame_body_stops (y ∷ ys) pos h = ground arith

frame_body_last :
    (ys : List ℕ) (pos : ℕ)
    → pos ≡ buffer_size - 3
    → frame_body pos (Byte.iac ∷ ys) ≡ Byte.iac ∷ Byte.iac ∷ []
unfolding frame_body
frame_body_last ys pos h = ground (arith, frame_body_stops ys (pos + 2))

-- The check of the loop does not see that a doubled IAC takes two bytes. Where an IAC stands behind
-- 4091 bytes that are none, on the last position that the check lets through, the frame is one byte
-- longer than `buf`.
frame_overruns :
    (xs ys : List ℕ)
    → All (λ x. (x == Byte.iac) ≡ false) xs
    → length xs ≡ 4091
    → length (frame (xs ++ Byte.iac ∷ ys)) ≡ buffer_size + 1
unfolding frame
frame_overruns xs ys a h = rw (frame_body_plain xs (Byte.iac ∷ ys) 2 a (omega arith)) (
    rw (frame_body_last ys (2 + length xs) (omega arith)) (
      omega (
        arith,
        length-append (xs ++ Byte.iac ∷ Byte.iac ∷ []) (Byte.iac ∷ Byte.se ∷ []),
        length-append xs (Byte.iac ∷ Byte.iac ∷ []),
      )))
