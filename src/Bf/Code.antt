-- ===== src/Bf/Code.antt =====
-- The byte code of user/bf/src/bc.rs: the opcodes, and a jump's target in four bytes, lowest first.
use servos.Prelude.{
  ℕ, ◌+◌, ◌*◌, ◌/◌, ◌%◌, ◌<◌, ◌≡◌, refl, ap, Option, none, some, List, [], ◌∷◌, ◌++◌, length,
  take-append, drop-append, ◌∙◌, take, drop, ◌==◌, if◌then◌else◌, arith,
}
use servos.Prelude.Outcome.{Outcome, done, panic}

-- Opcode
pub data Opcode : Type 0 where
  halt inc dec left right out input jz jnz : Opcode

-- `opcode as u8`
abbrev pub byte_of : Opcode → ℕ
byte_of halt = 0
byte_of inc = 1
byte_of dec = 2
byte_of left = 3
byte_of right = 4
byte_of out = 5
byte_of input = 6
byte_of jz = 7
byte_of jnz = 8

-- Opcode::from_repr
unfoldable pub from_repr : ℕ → Option Opcode
from_repr b =
    if b == 0
    then some halt
    else if b == 1
    then some inc
    else if b == 2
    then some dec
    else if b == 3
    then some left
    else if b == 4
    then some right
    else if b == 5
    then some out
    else if b == 6
    then some input
    else if b == 7
    then some jz
    else if b == 8
    then some jnz
    else none

-- u32::to_le_bytes
unfoldable pub to_le_bytes : ℕ → List ℕ
to_le_bytes n = n % 256 ∷ n / 256 % 256 ∷ n / 65536 % 256 ∷ n / 16777216 % 256 ∷ []

-- u32::from_le_bytes of a slice of four bytes
abbrev pub from_le_bytes : List ℕ → Outcome ℕ
from_le_bytes (a ∷ b ∷ c ∷ d ∷ []) = done (a + 256 * (b + 256 * (c + 256 * d)))
from_le_bytes _ = panic

-- Program::read_jmp
unfoldable pub read_jmp : List ℕ → ℕ → Outcome ℕ
read_jmp code ip = from_le_bytes (take 4 (drop ip code))

pub from_repr-byte_of : (o : Opcode) → from_repr (byte_of o) ≡ some o
unfolding from_repr
from_repr-byte_of halt = refl
from_repr-byte_of inc = refl
from_repr-byte_of dec = refl
from_repr-byte_of left = refl
from_repr-byte_of right = refl
from_repr-byte_of out = refl
from_repr-byte_of input = refl
from_repr-byte_of jz = refl
from_repr-byte_of jnz = refl

pub length-to_le_bytes : (n : ℕ) → length (to_le_bytes n) ≡ 4
unfolding to_le_bytes
length-to_le_bytes n = refl

pub from_le_bytes-to_le_bytes : (n : ℕ) → n < 4294967296 → from_le_bytes (to_le_bytes n) ≡ done n
unfolding to_le_bytes
from_le_bytes-to_le_bytes n h = ap done (omega arith)

-- The word behind a prefix of the code is what a jump there reads.
pub read_jmp-append :
    (ip : ℕ) (xs ys : List ℕ) (n : ℕ)
    → length xs ≡ ip
    → n < 4294967296
    → read_jmp (xs ++ (to_le_bytes n ++ ys)) ip ≡ done n
unfolding read_jmp
read_jmp-append ip xs ys n h lt =
    ap (λ l. from_le_bytes (take 4 l)) (drop-append ip xs (to_le_bytes n ++ ys) h)
    ∙ (ap from_le_bytes (take-append 4 (to_le_bytes n) ys (length-to_le_bytes n))
        ∙ from_le_bytes-to_le_bytes n lt)
