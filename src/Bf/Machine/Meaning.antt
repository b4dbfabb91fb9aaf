-- ===== src/Bf/Machine/Meaning.antt =====
-- What the language means, without code and addresses: what a command does to the cells and the
-- world, and how a block runs.
use servos.Prelude.{
  ℕ, ◌+◌, ◌-◌, ◌%◌, ◌^◌, ◌≡◌, ◌≢◌, inl, inr, Option, none, some, List, [], ◌∷◌, ◌++◌, ltb,
  if◌then◌else◌, arith, Option-cases,
}
use servos.Bf.Code.{Opcode, halt, inc, dec, left, right, out, input, jz, jnz}
use servos.Bf.Tree.{Block, end, op, loop}
use servos.Bf.Machine.{
  Read, no_bytes, eof, byte, failed, Tape, Vm, continues, cell, put_cell, read_byte, write_byte,
  update_cell, output_cell, input_cell, exec,
}

-- the first answer that is not "no byte yet": the byte read, 0 at the end, and the answers left
unfoldable pub arrives : List Read → Option (ℕ × List Read)
arrives [] = none
arrives (no_bytes ∷ answers) = arrives answers
arrives (eof ∷ answers) = some (0, answers)
arrives (byte b ∷ answers) = some (b, answers)
arrives (failed e ∷ answers) = none

-- the tape after a command, if the command succeeds
unfoldable pub apply : Opcode → Tape → Option Tape
apply inc t = elim (cell t) [ none ↦ none | some c ↦ some (put_cell t ((c + 1) % 256)) ]
apply dec t = elim (cell t) [ none ↦ none | some c ↦ some (put_cell t ((c + 255) % 256)) ]
apply right t = if ltb (t.bp + 1) (2 ^ 64) then some (record t { bp = t.bp + 1 }) else none
apply left t = if ltb 0 t.bp then some (record t { bp = t.bp - 1 }) else none
apply out t = elim (cell t) [
  | none ↦ none
  | some c ↦ elim t.world.writes [
    | [] ↦ none
    | none ∷ answers ↦ some (record t {
      world = record t.world { writes = answers; written = t.world.written ++ c ∷ [] };
    })
    | some e ∷ answers ↦ none
  ]
]
apply input t = elim (arrives t.world.reads) [
  | none ↦ none
  | some (b, answers) ↦
      let t' = record t { world = record t.world { reads = answers } } in
      elim (cell t') [ none ↦ none | some c ↦ some (put_cell t' b) ]
]
apply halt t = none
apply jz t = none
apply jnz t = none

-- A block runs from one tape to another: a loop, as long as the cell under the pointer is not 0.
pub data Runs : Block → Tape → Tape → Type 0 where
  ended : (t : Tape) → Runs end t t
  then_op :
      (o : Opcode) (rest : Block) (t t' t'' : Tape)
      → apply o t ≡ some t'
      → Runs rest t' t''
      → Runs (op o rest) t t''
  left_loop :
      (body rest : Block) (t t' : Tape)
      → cell t ≡ some 0
      → Runs rest t t'
      → Runs (loop body rest) t t'
  again :
      (body rest : Block) (t t' t'' : Tape) (c : ℕ)
      → cell t ≡ some c
      → c ≢ 0
      → Runs body t t'
      → Runs (loop body rest) t' t''
      → Runs (loop body rest) t t''

read_byte-arrives :
    (answers : List Read) (b : ℕ) (rest : List Read)
    → arrives answers ≡ some (b, rest)
    → read_byte answers ≡ ((continues, b), rest)
unfolding arrives read_byte
read_byte-arrives [] b rest h = ground arith
read_byte-arrives (no_bytes ∷ answers) b rest h = read_byte-arrives answers b rest h
read_byte-arrives (eof ∷ answers) b rest h = ground arith
read_byte-arrives (byte c ∷ answers) b rest h = ground arith
read_byte-arrives (failed e ∷ answers) b rest h = ground arith

-- The machine does a command as the language means it.
pub exec-apply :
    (o : Opcode) (vm : Vm) (t : Tape)
    → apply o vm.tape ≡ some t
    → exec o vm ≡ (continues, record vm { tape = t })
unfolding exec apply update_cell output_cell input_cell write_byte
exec-apply halt vm t h = ground arith
exec-apply jz vm t h = ground arith
exec-apply jnz vm t h = ground arith
exec-apply right vm t h = ground arith
exec-apply left vm t h = ground arith
exec-apply inc vm t h = ground arith
exec-apply dec vm t h = ground arith
exec-apply out vm t h = ground arith
exec-apply input vm t h = elim (Option-cases (arrives vm.tape.world.reads)) [
  | inl e ↦ ground arith
  | inr ((b, answers), e) ↦
      let r = read_byte-arrives vm.tape.world.reads b answers e in ground arith
]
