-- ===== src/Env/Status.antt =====
-- The values of `env_status`, inc/env.h.
use jos_operating_system.Prelude.{ℕ}

abbrev pub free : ℕ
free = 0

abbrev pub dying : ℕ
dying = 1

abbrev pub runnable : ℕ
runnable = 2

abbrev pub running : ℕ
running = 3

abbrev pub not_runnable : ℕ
not_runnable = 4
