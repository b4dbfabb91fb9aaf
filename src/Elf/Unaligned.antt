-- ===== src/Elf/Unaligned.antt =====
-- The files that the loader panics on.
use servos.Prelude.{
  ℕ, ◌+◌, ◌%◌, ◌≤◌, ◌≡◌, ◌≢◌, ap, ◌∙◌, Bool, true, not, Option, none, some, length, drop,
  length-drop, if◌then◌else◌, arith,
}
use servos.Prelude.Outcome.{Outcome, done, panic}
use servos.Fs.Path.{Bytes}
use servos.Elf.{◌>>=◌, ehdr_at, shdr_at, as_struct, get_from, is_supported, new}

as_struct-read :
    {A : Type 0} (size : ℕ) (read : Bytes → A) (addr : ℕ) (bytes : Bytes)
    → size ≤ length bytes
    → addr % 8 ≡ 0
    → as_struct size read addr bytes ≡ done (some (read bytes))
unfolding as_struct
as_struct-read size read addr bytes l h = ground arith

as_struct-unaligned :
    {A : Type 0} (size : ℕ) (read : Bytes → A) (addr : ℕ) (bytes : Bytes)
    → size ≤ length bytes
    → addr % 8 ≢ 0
    → as_struct size read addr bytes ≡ panic
unfolding as_struct
as_struct-unaligned size read addr bytes l h = ground arith

-- the panic of a step, and of what follows it
bind_panic_later :
    {A B : Type 0} (x : Outcome (Option A)) (f : A → Outcome (Option B)) (a : A)
    → x ≡ done (some a)
    → f a ≡ panic
    → (x >>= f) ≡ panic
bind_panic_later x f a e g = ap (λ z. z >>= f) e ∙ g

bind_panic :
    {A B : Type 0} (x : Outcome (Option A)) (f : A → Outcome (Option B))
    → x ≡ panic
    → (x >>= f) ≡ panic
bind_panic x f e = ap (λ z. z >>= f) e

if_panic :
    {A : Type 0} (b : Bool) (x : Outcome (Option A))
    → b ≡ true
    → x ≡ panic
    → (if not b then done none else x) ≡ panic
if_panic b x e g = ap (λ c. if not c then done none else x) e ∙ g

get_from-within :
    (off : ℕ) (file : Bytes) → off ≤ length file → get_from off file ≡ some (drop off file)
unfolding get_from
get_from-within off file h = ground arith

-- A file at an aligned address, with the header of a RISC-V executable that puts the section headers
-- within the file but at an offset that is not a multiple of 8, makes the loader panic.
pub new-unaligned :
    (addr : ℕ) (file : Bytes)
    → addr % 8 ≡ 0
    → 64 ≤ length file
    → is_supported (ehdr_at file) ≡ true
    → (ehdr_at file).shoff + 56 ≤ length file
    → (ehdr_at file).shoff % 8 ≢ 0
    → new addr file ≡ panic
unfolding new
new-unaligned addr file h long supported fits ne =
    let shoff = (ehdr_at file).shoff in
    bind_panic_later (as_struct 64 ehdr_at addr file) _ (ehdr_at file)
      (as_struct-read 64 ehdr_at addr file long h)
      (if_panic (is_supported (ehdr_at file)) _ supported (
        bind_panic_later (done (get_from shoff file)) _ (drop shoff file)
          (ap done (get_from-within shoff file (omega arith)))
          (bind_panic (as_struct 56 shdr_at (addr + shoff) (drop shoff file)) _ (
            as_struct-unaligned 56 shdr_at (addr + shoff) (drop shoff file)
              (omega (arith, length-drop shoff file)) (λ e. ne (omega arith))))))
