-- ===== src/Bf/Tests.antt =====
-- Runs of the compiler and the machine of user/bf.
use servos.Prelude.{ℕ, ◌≡◌, refl, List, [], ◌∷◌, none, length, arith}
use servos.Bf.Code.{inc, dec, out}
use servos.Bf.Compile.{ok, compile, symbol}
use servos.Bf.Compile.Correct.{Verdict, compile-Verdict}
use servos.Bf.Tree.{Block, end, op, loop, symbols, spell}
use servos.Bf.Machine.{Tape, Vm, halts, load, run_for, cell, put_cell}
use servos.Bf.Machine.Meaning.{Runs, ended, then_op, left_loop, again, apply}
use servos.Bf.Machine.Whole.{run_for-compile}

-- `+[-].`
abbrev program : List ℕ
program = b'+' ∷ b'[' ∷ b'-' ∷ b']' ∷ b'.' ∷ []

abbrev block : Block
block = op inc (loop (op dec end) (op out end))

abbrev tape : ℕ → List ℕ → Tape
tape c written = record {
  bp = 0;
  data_cells = c ∷ [];
  world = record { reads = []; writes = none ∷ []; written = written };
}

abbrev tape_end : Tape
tape_end = record {
  bp = 0;
  data_cells = 0 ∷ [];
  world = record { reads = []; writes = []; written = 0 ∷ [] };
}

block-Runs : Runs block (tape 0 []) tape_end
unfolding apply cell put_cell
block-Runs = then_op inc (loop (op dec end) (op out end)) (tape 0 []) (tape 1 []) tape_end refl (
    again (op dec end) (op out end) (tape 1 []) (tape 0 []) tape_end 1 refl (omega arith)
      (then_op dec end (tape 1 []) (tape 0 []) (tape 0 []) refl (ended (tape 0 [])))
      (left_loop (op dec end) (op out end) (tape 0 []) tape_end refl
        (then_op out end (tape 0 []) tape_end tape_end refl (ended tape_end))))

abbrev machine : Vm
machine = record { ip = 7; program = 1 ∷ []; tape = tape 0 [] }

program-spell : symbols program ≡ spell block
unfolding symbols spell symbol
program-spell = refl

compile-Verdict_example : Verdict (symbols program) (compile program)
compile-Verdict_example = compile-Verdict program (omega arith)

run_for-compile_example :
    (code : List ℕ) × (n : ℕ) × (compile program ≡ ok code)
    × (run_for n (load code machine)
        ≡ (halts, record { ip = length code; program = code; tape = tape_end }))
run_for-compile_example =
    run_for-compile program block (tape 0 []) tape_end machine (omega arith) program-spell
      block-Runs refl
