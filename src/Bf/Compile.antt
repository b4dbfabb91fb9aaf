-- ===== src/Bf/Compile.antt =====
-- `Program::compile` of user/bf/src/bc.rs.
pub mod Frames
pub mod Correct
pub mod Parse
use servos.Prelude.{
  ℕ, ◌+◌, ◌%◌, ◌^◌, Option, none, some, List, [], ◌∷◌, ◌++◌, length, take, drop, replicate, leb,
  ltb, ◌==◌, if◌then◌else◌,
}
use servos.Bf.Code.{Opcode, halt, inc, dec, left, right, out, input, jz, jnz, byte_of, to_le_bytes}

pub data CompileError : Type 0 where
  unmatched_r unmatched_l : CompileError

-- `Result<_, CompileError>`, or a panic
pub data Compiled (A : Type 0) : Type 0 where
  ok : A → Compiled A
  err : CompileError → Compiled A
  panic : Compiled A

infixl 5 ◌>>=◌
abbrev pub ◌>>=◌ : {A B : Type 0} → Compiled A → (A → Compiled B) → Compiled B
ok a >>= f = f a
err e >>= f = err e
panic >>= f = panic

-- what a byte of the program is
pub data Symbol : Type 0 where
  command : Opcode → Symbol
  open_loop close_loop comment : Symbol

unfoldable pub symbol : ℕ → Symbol
symbol byte =
    if byte == b'>'
    then command right
    else if byte == b'<'
    then command left
    else if byte == b'+'
    then command inc
    else if byte == b'-'
    then command dec
    else if byte == b'.'
    then command out
    else if byte == b','
    then command input
    else if byte == b'['
    then open_loop
    else if byte == b']'
    then close_loop
    else comment

-- the two vectors of the loop; the last of `jumps` comes first
pub record Emitted : Type 0 where
  pub code : List ℕ
  pub jumps : List ℕ

-- `code[at..][..4].copy_from_slice(word)`
unfoldable pub patch : List ℕ → ℕ → List ℕ → Compiled (List ℕ)
patch code at word =
    if leb (at + 4) (length code) then ok (take at code ++ (word ++ drop (at + 4) code)) else panic

-- the arm of `]`; the sum of two `u32` overflows
unfoldable pub close : Emitted → Compiled Emitted
close e = elim e.jumps [
  | [] ↦ err unmatched_r
  | last ∷ jumps ↦
      let code = e.code ++ (byte_of jnz ∷ to_le_bytes (last + 4)) in
      if ltb (last + 4) (2 ^ 32)
      then (patch code last (to_le_bytes (length code % 2 ^ 32)) >>= λ patched.
          ok record { code = patched; jumps = jumps })
      else panic
]

-- the body of the loop
unfoldable pub compile_symbol : Symbol → Emitted → Compiled Emitted
compile_symbol (command o) e = ok record e { code = e.code ++ byte_of o ∷ [] }
compile_symbol open_loop e = ok record {
  code = (e.code ++ byte_of jz ∷ []) ++ replicate 4 0;
  jumps = (length e.code + 1) % 2 ^ 32 ∷ e.jumps;
}
compile_symbol close_loop e = close e
compile_symbol comment e = ok e

-- the loop
unfoldable pub compile_bytes : List ℕ → Emitted → Compiled Emitted
compile_bytes [] e = ok e
compile_bytes (byte ∷ program) e = compile_symbol (symbol byte) e >>= λ e'. compile_bytes program e'

-- the end of `compile`
unfoldable pub finish : Emitted → Compiled (List ℕ)
finish e = elim e.jumps [ [] ↦ ok (e.code ++ byte_of halt ∷ []) | last ∷ jumps ↦ err unmatched_l ]

-- Program::compile
unfoldable pub compile : List ℕ → Compiled (List ℕ)
compile program = compile_bytes program record { code = []; jumps = [] } >>= λ e. finish e
