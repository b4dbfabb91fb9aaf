-- ===== src/Elf/Tests.antt =====
-- A small executable: its header, one section header and one program header.
use servos.Prelude.{ℕ, ◌%◌, ◌≡◌, refl, true, [], ◌∷◌, ◌++◌, replicate, arith}
use servos.Prelude.Outcome.{panic}
use servos.Fs.Path.{Bytes}
use servos.Elf.{ehdr_at, field, is_supported, new}
use servos.Elf.Bounds.{Goes, IsLoadable, new-Goes}
use servos.Elf.Unaligned.{new-unaligned}
use servos.Sys.User.{from_le}

-- the header, with the offset of the section headers
abbrev header : ℕ → Bytes
header shoff =
    0x7f ∷ 0x45 ∷ 0x4c ∷ 0x46 ∷ 2 ∷ 1 ∷ 1 ∷ 0 ∷ 0 ∷ 0 ∷ 0 ∷ 0 ∷ 0 ∷ 0 ∷ 0 ∷ 0 ∷ 2 ∷ 0 ∷ 243 ∷ 0 ∷ 1
    ∷ 0 ∷ 0 ∷ 0 ∷ 0 ∷ 0 ∷ 0 ∷ 0 ∷ 0 ∷ 0 ∷ 0 ∷ 0 ∷ 64 ∷ 0 ∷ 0 ∷ 0 ∷ 0 ∷ 0 ∷ 0 ∷ 0 ∷ shoff ∷ 0 ∷ 0 ∷ 0
    ∷ 0 ∷ 0 ∷ 0 ∷ 0 ∷ 0 ∷ 0 ∷ 0 ∷ 0 ∷ 64 ∷ 0 ∷ 56 ∷ 0 ∷ 1 ∷ 0 ∷ 64 ∷ 0 ∷ 1 ∷ 0 ∷ 0 ∷ 0 ∷ []

abbrev file : ℕ → Bytes
file shoff = header shoff ++ replicate 120 0

shoff-aligned : (ehdr_at (file 120)).shoff % 8 ≡ 0
unfolding ehdr_at field from_le
shoff-aligned = refl

phoff-aligned : (ehdr_at (file 120)).phoff % 8 ≡ 0
unfolding ehdr_at field from_le
phoff-aligned = refl

file-supported : is_supported (ehdr_at (file 121)) ≡ true
unfolding ehdr_at field from_le is_supported
file-supported = refl

shoff-unaligned : (ehdr_at (file 121)).shoff ≡ 121
unfolding ehdr_at field from_le
shoff-unaligned = refl

new-Goes_example : Goes (IsLoadable (file 120)) (new 0x1000 (file 120))
new-Goes_example = new-Goes 0x1000 (file 120) refl shoff-aligned phoff-aligned

new-unaligned_example : new 0x1000 (file 121) ≡ panic
new-unaligned_example =
    new-unaligned 0x1000 (file 121) refl (omega arith) file-supported
      (omega (arith, shoff-unaligned)) (λ e. omega (arith, shoff-unaligned, e))
