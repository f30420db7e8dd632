-- ===== src/Memory/Tests.antt =====
-- `memmove` by two bytes within a range of eight.
use jos_operating_system.Prelude.{◌≡◌}
use jos_operating_system.Memory.{memmove}
use jos_operating_system.Memory.Move.{copied, memmove-copied}

memmove-copied_example : memmove 10 8 8 (λ a. a) 12 ≡ copied 10 8 8 (λ a. a) 12
memmove-copied_example = memmove-copied 10 8 8 (λ a. a) 12
