-- ===== src/Bf/Machine/Whole.antt =====
-- Compiled programs, from their first byte to their halt.
use servos.Prelude.{
  ℕ, suc, ◌+◌, ◌*◌, ◌^◌, ◌<◌, ◌≤◌, ◌≡◌, refl, ap, ◌∙◌, List, [], ◌∷◌, ◌++◌, length, length-append,
  arith,
}
use servos.Bf.Code.{halt, byte_of}
use servos.Bf.Compile.{Symbol, command, open_loop, close_loop, comment, symbol, ok, compile}
use servos.Bf.Compile.Parse.{compile-spell}
use servos.Bf.Tree.{Block, end, op, loop, size, emit, spell, keep, symbols, length-emit}
use servos.Bf.Machine.{Tape, Vm, StepResult, halts, continues, load, exec, run_for}
use servos.Bf.Machine.Meaning.{Runs}
use servos.Bf.Machine.Simulate.{at, step-at, Runs-Leads}

size-spell : (b : Block) → size b ≤ 5 * length (spell b)
unfolding size spell
size-spell end = omega arith
size-spell (op x rest) = omega (arith, size-spell rest)
size-spell (loop body rest) =
    omega (
      arith,
      size-spell body,
      size-spell rest,
      length-append (spell body) (close_loop ∷ spell rest),
    )

length-keep : (s : Symbol) (l : List Symbol) → length (keep s l) ≤ suc (length l)
length-keep (command x) l = omega arith
length-keep open_loop l = omega arith
length-keep close_loop l = omega arith
length-keep comment l = omega arith

length-symbols : (bytes : List ℕ) → length (symbols bytes) ≤ length bytes
unfolding symbols
length-symbols [] = omega arith
length-symbols (byte ∷ bytes) =
    omega (arith, length-symbols bytes, length-keep (symbol byte) (symbols bytes))

-- the code of a block and a halt
abbrev program_of : Block → List ℕ
program_of b = emit 0 b ++ byte_of halt ∷ []

run_for-halt :
    (b : Block) (t : Tape)
    → run_for 1 (at (program_of b) (size b) t) ≡ (halts, at (program_of b) (size b + 1) t)
unfolding run_for exec
run_for-halt b t =
    ap (λ (p : StepResult × Vm). elim p.0 [ continues ↦ run_for 0 p.1 | other ↦ (other, p.1) ])
      (step-at (program_of b) halt (size b) [] t (emit 0 b, refl, length-emit 0 b))

run_for-Runs :
    (b : Block) (t t' : Tape)
    → Runs b t t'
    → size b < 2 ^ 32
    → (n : ℕ) × (run_for n (at (program_of b) 0 t) ≡ (halts, at (program_of b) (size b + 1) t'))
run_for-Runs b t t' r h =
    let (leads, unused) =
      Runs-Leads (program_of b) r 0 ([], byte_of halt ∷ [], refl, refl) (omega arith) in
    let (n, e) = leads.runs 1 in
    let same : 0 + size b ≡ size b = omega arith in
    (n, e ∙ (ap (λ k. run_for 1 (at (program_of b) k t')) same ∙ run_for-halt b t'))

-- If the symbols of a program of at most 858993456 bytes spell a block, and the block runs from one
-- tape to another, then the program compiles, and the machine that has loaded its code over the
-- first tape halts after some number of steps with the second tape.
pub run_for-compile :
    (bytes : List ℕ) (b : Block) (t t' : Tape) (vm : Vm)
    → 5 * length bytes + 5 < 2 ^ 32
    → symbols bytes ≡ spell b
    → Runs b t t'
    → vm.tape ≡ t
    → (code : List ℕ) × (n : ℕ) × (compile bytes ≡ ok code)
      × (run_for n (load code vm) ≡ (halts, record { ip = length code; program = code; tape = t' }))
unfolding load
run_for-compile bytes b t t' vm h e r same =
    let small : size b < 2 ^ 32 = omega (arith, size-spell b, length-symbols bytes, ap length e) in
    let (n, runs) = run_for-Runs b t t' r small in
    let whole : size b + 1 ≡ length (program_of b) =
      omega (arith, length-append (emit 0 b) (byte_of halt ∷ []), length-emit 0 b) in
    (
      program_of b,
      n,
      compile-spell bytes b h e,
      ap (λ s. run_for n (at (program_of b) 0 s)) same
          ∙ (runs ∙ ap (λ k. (halts, at (program_of b) k t')) whole),
    )
