-- ===== src/Modem/Command/Empty.antt =====
-- An empty command line of `modem_process_command` of src/modem.c.
use modembridge.Prelude.{ℕ, suc, ◌≡◌, refl, sym, ap, ap₂, ◌∙◌, List, [], ◌∷◌, ◌++◌, length}
use modembridge.Modem.State.{Modem, Serial}
use modembridge.Modem.Command.{upper_from, commands, process_command}
use modembridge.Modem.Command.Numbers.{Plain}

-- Copying what stands there already.
copied_again :
    (c b : ℕ) (command rest : List ℕ)
    → Plain (c ∷ command)
    → upper_from (c ∷ command) (b ∷ (command ++ (0 ∷ rest))) ≡ c ∷ (command ++ (0 ∷ rest))
unfolding upper_from
copied_again c b [] rest ((u, z), h) = rw z (ap (λ x. x ∷ 0 ∷ rest) u)
copied_again c b (d ∷ command) rest ((u, z), h) =
    rw z (ap₂ (λ x xs. x ∷ xs) u (copied_again d 0 command rest h))

-- An empty command line, as a bare `AT` gives, is not answered `OK`: where the array that nothing
-- initialises still holds some command in upper case, it does what that command line does.
process_command_empty :
    (serial : Serial) (c : ℕ) (command rest : List ℕ) (m : Modem)
    → Plain (c ∷ command)
    → let before = c ∷ (command ++ (0 ∷ rest)) in
      process_command serial before [] m ≡ process_command serial before (c ∷ command) m
unfolding process_command
process_command_empty serial c command rest m h =
    let before = c ∷ (command ++ (0 ∷ rest)) in
    ap (λ p. commands serial (suc (length before)) p m)
      (empty before ∙ sym (copied_again c c command rest h))
  where
    empty : (before : List ℕ) → upper_from [] before ≡ before
    empty before = unfold upper_from in refl
