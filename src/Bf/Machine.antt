-- ===== src/Bf/Machine.antt =====
-- `Vm` of user/bf/src/bc.rs. What the system calls of the machine answer is a parameter: the world
-- holds the answers of the reads and writes to come, and the bytes written so far. A call that has
-- no answer yet has not returned.
pub mod Meaning
pub mod Simulate
pub mod Whole
use servos.Prelude.{
  ℕ, zero, suc, ◌+◌, ◌-◌, ◌%◌, ◌^◌, Bool, true, false, Option, none, some, List, [], ◌∷◌, ◌++◌, set,
  get_elem?, replicate, ltb, ◌==◌, if◌then◌else◌,
}
use servos.Prelude.Outcome.{Outcome, done, panic}
use servos.Bf.Code.{Opcode, halt, inc, dec, left, right, out, input, jz, jnz, from_repr, read_jmp}

-- what `sys::read` of one byte answers: no byte yet, a byte, the end of the input, or an error
pub data Read : Type 0 where
  no_bytes eof : Read
  byte failed : ℕ → Read

pub record World : Type 0 where
  pub reads : List Read
  pub writes : List (Option ℕ)
  pub written : List ℕ

-- the cells of the machine, and the world around it
pub record Tape : Type 0 where
  pub bp : ℕ
  pub data_cells : List ℕ
  pub world : World

pub record Vm : Type 0 where
  pub ip : ℕ
  pub program : List ℕ
  pub tape : Tape

-- StepResult; `panics` is a panic of the process, and `waits` a system call that has not returned
pub data StepResult : Type 0 where
  halts continues panics waits : StepResult
  error sys_error : ℕ → StepResult

-- Vm::new
unfoldable pub new : World → Vm
new w = record {
  ip = 0;
  program = [];
  tape = record { bp = 0; data_cells = replicate 30000 0; world = w };
}

-- Vm::load
unfoldable pub load : List ℕ → Vm → Vm
load program vm = record vm { ip = 0; program = program }

-- Vm::reset
unfoldable pub reset : Vm → Vm
unfolding load
reset vm =
    let v = load [] vm in
    record v { tape = record v.tape { bp = 0; data_cells = replicate 30000 0 } }

-- `self.data[self.bp]`
unfoldable pub cell : Tape → Option ℕ
cell t = get_elem? t.data_cells t.bp

unfoldable pub put_cell : Tape → ℕ → Tape
put_cell t c = record t { data_cells = set t.data_cells t.bp c }

-- the `loop` of `Opcode::In`: a byte, an error or no answer, and the answers left
unfoldable pub read_byte : List Read → (StepResult × ℕ) × List Read
read_byte [] = ((waits, 0), [])
read_byte (no_bytes ∷ answers) = read_byte answers
read_byte (eof ∷ answers) = ((continues, 0), answers)
read_byte (byte b ∷ answers) = ((continues, b), answers)
read_byte (failed e ∷ answers) = ((sys_error e, 0), answers)

-- `sys::write` of the byte `b`
unfoldable pub write_byte : World → ℕ → StepResult × World
write_byte w b = elim w.writes [
  | [] ↦ (waits, w)
  | none ∷ answers ↦ (continues, record w { writes = answers; written = w.written ++ b ∷ [] })
  | some e ∷ answers ↦ (sys_error e, record w { writes = answers })
]

-- what a command does with the cell `c` under the pointer
unfoldable pub update_cell : (ℕ → ℕ) → Vm → StepResult × Vm
update_cell f vm = elim (cell vm.tape) [
  | none ↦ (panics, vm)
  | some c ↦ (continues, record vm { tape = put_cell vm.tape (f c) })
]

unfoldable pub output_cell : Vm → StepResult × Vm
output_cell vm = elim (cell vm.tape) [
  | none ↦ (panics, vm)
  | some c ↦
      let (r, w) = write_byte vm.tape.world c in
      (r, record vm { tape = record vm.tape { world = w } })
]

-- the byte is read first, then the cell is written
unfoldable pub input_cell : Vm → StepResult × Vm
input_cell vm =
    let ((r, b), answers) = read_byte vm.tape.world.reads in
    let vm' = record vm {
      tape = record vm.tape { world = record vm.tape.world { reads = answers } };
    } in
    elim r [ continues ↦ update_cell (λ c. b) vm' | other ↦ (other, vm') ]

-- a jump, taken if the cell's test says so
unfoldable pub jump_if : (ℕ → Bool) → Vm → StepResult × Vm
jump_if test vm = elim (cell vm.tape) [
  | none ↦ (panics, vm)
  | some c ↦
      if test c
      then (elim (read_jmp vm.program vm.ip) [
        | done target ↦ (continues, record vm { ip = target })
        | panic ↦ (panics, vm)
      ])
      else (continues, record vm { ip = vm.ip + 4 })
]

abbrev pub is_zero : ℕ → Bool
is_zero c = c == 0

abbrev pub is_nonzero : ℕ → Bool
is_nonzero c = if c == 0 then false else true

-- the `match` of `step`, with the instruction pointer already moved on
unfoldable pub exec : Opcode → Vm → StepResult × Vm
exec halt vm = (halts, vm)
exec inc vm = update_cell (λ c. (c + 1) % 256) vm
exec dec vm = update_cell (λ c. (c + 255) % 256) vm
exec right vm =
    if ltb (vm.tape.bp + 1) (2 ^ 64)
    then (continues, record vm { tape = record vm.tape { bp = vm.tape.bp + 1 } })
    else (panics, vm)
exec left vm =
    if ltb 0 vm.tape.bp
    then (continues, record vm { tape = record vm.tape { bp = vm.tape.bp - 1 } })
    else (panics, vm)
exec out vm = output_cell vm
exec input vm = input_cell vm
exec jz vm = jump_if is_zero vm
exec jnz vm = jump_if is_nonzero vm

-- `code.get(ip).copied().and_then(Opcode::from_repr)`
unfoldable pub fetch : Vm → Option Opcode
fetch vm = elim (get_elem? vm.program vm.ip) [ none ↦ none | some b ↦ from_repr b ]

-- Vm::step
unfoldable pub step : Vm → StepResult × Vm
step vm = elim (fetch vm) [
  | none ↦ (error vm.ip, vm)
  | some o ↦ exec o (record vm { ip = vm.ip + 1 })
]

-- `Vm::run_for` a number of steps. `run_for(None)` goes on until the result is not `continues`.
unfoldable pub run_for : ℕ → Vm → StepResult × Vm
run_for zero vm = (continues, vm)
run_for (suc n) vm =
    let (r, vm') = step vm in elim r [ continues ↦ run_for n vm' | other ↦ (other, vm') ]
