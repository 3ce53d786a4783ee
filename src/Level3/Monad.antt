-- ===== src/Level3/Monad.antt =====
-- Steps of a thread that takes `state_mutex` of include/level3.h. The mutex is not recursive: what
-- happens when a thread asks for it while holding it is not modelled beyond the fact.
use modembridge.Prelude.{true, false, if◌then◌else◌}
use modembridge.Level3.State.{Level3}

-- `relocks`: the thread asks for the mutex that it holds, in this context.
pub data Outcome {ℓ} (A : Type ℓ) : Type ℓ where
  done : A → Level3 → Outcome A
  relocks : Level3 → Outcome A

abbrev pub M : Type 0 → Type 0
M A = Level3 → Outcome A

infixl 5 ◌>>=◌ ◌>>◌
abbrev pub ◌>>=◌ : {A B : Type 0} → M A → (A → M B) → M B
◌>>=◌ m f c = elim (m c) [ done a c' ↦ f a c' | relocks c' ↦ relocks c' ]

abbrev pub ◌>>◌ : {B : Type 0} → M (Unit {0}) → M B → M B
m >> k = m >>= λ _. k

abbrev pub return : {A : Type 0} → A → M A
return a c = done a c

abbrev pub get : M Level3
get c = done c c

abbrev pub modify : (Level3 → Level3) → M (Unit {0})
modify f c = done tt (f c)

-- `pthread_mutex_lock` and `pthread_mutex_unlock` on `state_mutex`.
abbrev pub lock : M (Unit {0})
lock c = if c.mutex_held then relocks c else done tt (record c { mutex_held = true })

abbrev pub unlock : M (Unit {0})
unlock c = done tt (record c { mutex_held = false })
