-- ===== src/Bf/Machine/Simulate.antt =====
-- The machine runs compiled code as the language means it.
use servos.Prelude.{
  ℕ, suc, ◌+◌, ◌^◌, ◌<◌, ◌≡◌, ◌≢◌, refl, ap, sym, ◌∙◌, subst, Bool, true, false, Option, none, some,
  List, [], ◌∷◌, ◌++◌, length, get_elem?, get_elem?-append, length-append, append_assoc,
  if◌then◌else◌, arith, ne→==,
}
use servos.Prelude.Outcome.{done}
use servos.Bf.Code.{
  Opcode, jz, jnz, byte_of, from_repr, from_repr-byte_of, to_le_bytes, length-to_le_bytes, read_jmp,
  read_jmp-append,
}
use servos.Bf.Tree.{Block, end, op, loop, size, emit, length-emit}
use servos.Bf.Machine.{
  Tape, Vm, StepResult, continues, error, cell, exec, fetch, step, run_for, jump_if, is_zero,
  is_nonzero,
}
use servos.Bf.Machine.Meaning.{Runs, ended, then_op, left_loop, again, exec-apply}

abbrev pub at : List ℕ → ℕ → Tape → Vm
at code ip t = record { ip = ip; program = code; tape = t }

-- Whatever the machine comes to in `m` steps from the second state, it comes to from the first.
pub record Leads (v w : Vm) : Type 0 where
  pub runs : (m : ℕ) → (n : ℕ) × (run_for n v ≡ run_for m w)

Leads_refl : (v : Vm) → Leads v v
Leads_refl v = record { runs = λ m. (m, refl) }

Leads_trans : {u v w : Vm} → Leads u v → Leads v w → Leads u w
Leads_trans f g = record {
  runs = λ m. let (k, e) = g.runs m in let (n, d) = f.runs k in (n, d ∙ e);
}

Leads-step : {v w : Vm} → step v ≡ (continues, w) → Leads v w
unfolding run_for
Leads-step e = record {
  runs = λ m. (
    suc m,
    ap (λ (p : StepResult × Vm). elim p.0 [ continues ↦ run_for m p.1 | other ↦ (other, p.1) ]) e,
  );
}

-- a state at an address that is given in another way
Leads-ip :
    (v : Vm) (code : List ℕ) (t : Tape) {i j : ℕ}
    → i ≡ j
    → Leads v (at code i t)
    → Leads v (at code j t)
Leads-ip v code t e f = subst (λ k. Leads v (at code k t)) e f

module _ (code : List ℕ) where
  -- the opcode stands at the address
  abbrev Stands : Opcode → ℕ → List ℕ → Type 0
  Stands o ip rest = (before : List ℕ) × (code ≡ before ++ byte_of o ∷ rest) × (length before ≡ ip)

  pub step-at :
      (o : Opcode) (ip : ℕ) (rest : List ℕ) (t : Tape)
      → Stands o ip rest
      → step (at code ip t) ≡ exec o (at code (ip + 1) t)
  unfolding step fetch
  step-at o ip rest t (before, e, h) =
      ap
        (λ (x : Option Opcode). elim x [
          | none ↦ (error ip, at code ip t)
          | some p ↦ exec p (at code (ip + 1) t)
        ])
        (ap (λ (g : Option ℕ). elim g [ none ↦ none | some b ↦ from_repr b ])
            (ap (λ c. get_elem? c ip) e ∙ get_elem?-append ip before rest (byte_of o) h)
          ∙ from_repr-byte_of o)

  -- a jump that is taken
  jump-taken :
      (test : ℕ → Bool) (o : Opcode) (ip target : ℕ) (rest : List ℕ) (t : Tape) (c : ℕ)
      → Stands o ip (to_le_bytes target ++ rest)
      → target < 2 ^ 32
      → cell t ≡ some c
      → test c ≡ true
      → jump_if test (at code (ip + 1) t) ≡ (continues, at code target t)
  unfolding jump_if
  jump-taken test o ip target rest t c (before, e, h) lt ce te =
      let r : read_jmp code (ip + 1) ≡ done target =
        ap (λ l. read_jmp l (ip + 1))
          (e ∙ sym (append_assoc before (byte_of o ∷ []) (to_le_bytes target ++ rest)))
        ∙ read_jmp-append (ip + 1) (before ++ byte_of o ∷ []) rest target
            (omega (arith, length-append before (byte_of o ∷ []))) lt in
      ground arith

  jump-passed :
      (test : ℕ → Bool) (ip : ℕ) (t : Tape) (c : ℕ)
      → cell t ≡ some c
      → test c ≡ false
      → jump_if test (at code (ip + 1) t) ≡ (continues, at code (ip + 5) t)
  unfolding jump_if
  jump-passed test ip t c ce te = let five : ip + 1 + 4 ≡ ip + 5 = omega arith in ground arith

  -- The code of the block stands at the address.
  abbrev pub Holds : ℕ → Block → Type 0
  Holds a b =
      (before : List ℕ) × (after : List ℕ) × (code ≡ before ++ (emit a b ++ after))
      × (length before ≡ a)

  op-Stands :
      (a : ℕ) (o : Opcode) (rest : Block) → Holds a (op o rest) → (l : List ℕ) × Stands o a l
  unfolding emit
  op-Stands a o rest (before, after, e, h) = (emit (a + 1) rest ++ after, (before, e, h))

  op-Holds : (a : ℕ) (o : Opcode) (rest : Block) → Holds a (op o rest) → Holds (a + 1) rest
  unfolding emit
  op-Holds a o rest (before, after, e, h) = (
    before ++ byte_of o ∷ [],
    after,
    e ∙ sym (append_assoc before (byte_of o ∷ []) (emit (a + 1) rest ++ after)),
    omega (arith, length-append before (byte_of o ∷ [])),
  )

  module _ (a : ℕ) (body rest : Block) (g : Holds a (loop body rest)) where
    abbrev out : ℕ
    out = a + 10 + size body

    abbrev behind : List ℕ
    behind = emit out rest ++ g.1

    abbrev last : List ℕ
    last = byte_of jnz ∷ (to_le_bytes (a + 5) ++ behind)

    layout : code ≡ g.0 ++ byte_of jz ∷ (to_le_bytes out ++ (emit (a + 5) body ++ last))
    unfolding emit
    layout = g.2 ∙ simp append_assoc

    jz-Stands : Stands jz a (to_le_bytes out ++ (emit (a + 5) body ++ last))
    jz-Stands = (g.0, layout, g.3)

    abbrev to_body : List ℕ
    to_body = g.0 ++ byte_of jz ∷ to_le_bytes out

    length-to_body : length to_body ≡ a + 5
    length-to_body =
        let h = g.3 in
        omega (arith, length-append g.0 (byte_of jz ∷ to_le_bytes out), length-to_le_bytes out)

    body-Holds : Holds (a + 5) body
    body-Holds = (to_body, last, layout ∙ simp append_assoc, length-to_body)

    jnz-Stands : Stands jnz (a + 5 + size body) (to_le_bytes (a + 5) ++ behind)
    jnz-Stands = (
      to_body ++ emit (a + 5) body,
      layout ∙ simp append_assoc,
      omega (
        arith,
        length-append to_body (emit (a + 5) body),
        length-to_body,
        length-emit (a + 5) body,
      ),
    )

    rest-Holds : Holds out rest
    rest-Holds = (
      to_body ++ (emit (a + 5) body ++ byte_of jnz ∷ to_le_bytes (a + 5)),
      g.1,
      layout ∙ simp append_assoc,
      omega (
        arith,
        length-append to_body (emit (a + 5) body ++ byte_of jnz ∷ to_le_bytes (a + 5)),
        length-to_body,
        length-append (emit (a + 5) body) (byte_of jnz ∷ to_le_bytes (a + 5)),
        length-emit (a + 5) body,
        length-to_le_bytes (a + 5),
      ),
    )

    -- both jumps, when they are taken and when they are not
    enter : (t : Tape) (c : ℕ) → cell t ≡ some c → c ≢ 0 → Leads (at code a t) (at code (a + 5) t)
    unfolding exec
    enter t c e ne =
        Leads-step (step-at jz a _ t jz-Stands ∙ jump-passed is_zero a t c e (ne→== c 0 ne))

    skip : (t : Tape) → out < 2 ^ 32 → cell t ≡ some 0 → Leads (at code a t) (at code out t)
    unfolding exec
    skip t lt e =
        Leads-step
          (step-at jz a _ t jz-Stands ∙ jump-taken is_zero jz a out _ t 0 jz-Stands lt e refl)

    back :
        (t : Tape) (c : ℕ)
        → a + 5 < 2 ^ 32
        → cell t ≡ some c
        → c ≢ 0
        → Leads (at code (a + 5 + size body) t) (at code (a + 5) t)
    unfolding exec
    back t c lt e ne = Leads-step (
        step-at jnz (a + 5 + size body) _ t jnz-Stands
        ∙ jump-taken is_nonzero jnz (a + 5 + size body) (a + 5) _ t c jnz-Stands lt e
            (ap (λ b. if b then false else true) (ne→== c 0 ne)))

    leave : (t : Tape) → cell t ≡ some 0 → Leads (at code (a + 5 + size body) t) (at code out t)
    unfolding exec
    leave t e =
        let same : a + 5 + size body + 5 ≡ out = omega arith in
        Leads-ip (at code (a + 5 + size body) t) code t same (
          Leads-step (
            step-at jnz (a + 5 + size body) _ t jnz-Stands
            ∙ jump-passed is_nonzero (a + 5 + size body) t 0 e refl))

  -- from the second jump of a loop to its end
  abbrev Inner : ℕ → Block → Tape → Tape → Type 0
  Inner a (loop body rest) t t' =
      Leads (at code (a + 5 + size body) t) (at code (a + size (loop body rest)) t')
  Inner a (op o rest) t t' = Unit
  Inner a end t t' = Unit

  -- From the start of a block's code, and for a loop from its second jump too, the machine comes to
  -- the end of the code with the tape that the block's run ends with.
  pub Runs-Leads :
      {b : Block} {t t' : Tape}
      → Runs b t t'
      → (a : ℕ) → Holds a b
      → a + size b < 2 ^ 32
      → Leads (at code a t) (at code (a + size b) t') × Inner a b t t'
  unfolding size
  Runs-Leads (ended t) a g lt =
      (Leads-ip (at code a t) code t (omega arith) (Leads_refl (at code a t)), tt)
  Runs-Leads (then_op o rest t t' t'' e r) a g lt =
      let (l, s) = op-Stands a o rest g in
      let one : Leads (at code a t) (at code (a + 1) t') =
        Leads-step (step-at o a l t s ∙ exec-apply o (at code (a + 1) t) t' e) in
      let (later, inner) = Runs-Leads r (a + 1) (op-Holds a o rest g) (omega arith) in
      (Leads_trans one (Leads-ip (at code (a + 1) t') code t'' (omega arith) later), tt)
  Runs-Leads (left_loop body rest t t' e r) a g lt =
      let (later, inner) =
        Runs-Leads r (a + 10 + size body) (rest-Holds a body rest g) (omega arith) in
      let same : a + 10 + size body + size rest ≡ a + (10 + size body + size rest) = omega arith in
      let finish = Leads-ip (at code (a + 10 + size body) t) code t' same later in
      (
        Leads_trans (skip a body rest g t (omega arith) e) finish,
        Leads_trans (leave a body rest g t e) finish,
      )
  Runs-Leads (again body rest t t' t'' c e ne r q) a g lt =
      let (through, u) = Runs-Leads r (a + 5) (body-Holds a body rest g) (omega arith) in
      let (unused, onward) = Runs-Leads q a g lt in
      let middle = Leads_trans through onward in
      (
        Leads_trans (enter a body rest g t c e ne) middle,
        Leads_trans (back a body rest g t c (omega arith) e ne) middle,
      )
