-- ===== src/Bf/Tree.antt =====
-- What a program of user/bf means by its brackets: a block of commands and loops, the symbols that
-- spell it and the byte code that it comes to at an address.
use servos.Prelude.{
  ℕ, ◌+◌, ◌≡◌, refl, ap, sym, ◌∙◌, List, [], ◌∷◌, ◌++◌, length, length-append, append_assoc, arith,
}
use servos.Bf.Code.{Opcode, jz, jnz, byte_of, to_le_bytes, length-to_le_bytes}
use servos.Bf.Compile.{Symbol, command, open_loop, close_loop, comment, symbol}

pub data Block : Type 0 where
  end : Block
  op : Opcode → Block → Block
  loop : Block → Block → Block

-- the number of bytes of a block's code
unfoldable pub size : Block → ℕ
size end = 0
size (op o rest) = 1 + size rest
size (loop body rest) = 10 + size body + size rest

-- the code of a block that stands at address `a`
unfoldable pub emit : ℕ → Block → List ℕ
emit a end = []
emit a (op o rest) = byte_of o ∷ emit (a + 1) rest
emit a (loop body rest) =
    byte_of jz
    ∷ (to_le_bytes (a + 10 + size body)
        ++ (emit (a + 5) body
            ++ byte_of jnz ∷ (to_le_bytes (a + 5) ++ emit (a + 10 + size body) rest)))

unfoldable pub spell : Block → List Symbol
spell end = []
spell (op o rest) = command o ∷ spell rest
spell (loop body rest) = open_loop ∷ (spell body ++ close_loop ∷ spell rest)

-- the symbols of a program, without its comments
abbrev pub keep : Symbol → List Symbol → List Symbol
keep comment l = l
keep s l = s ∷ l

unfoldable pub symbols : List ℕ → List Symbol
symbols [] = []
symbols (byte ∷ program) = keep (symbol byte) (symbols program)

unfoldable pub append : Block → Block → Block
append end b = b
append (op o rest) b = op o (append rest b)
append (loop body rest) b = loop body (append rest b)

pub length-emit : (a : ℕ) (b : Block) → length (emit a b) ≡ size b
unfolding emit size
length-emit a end = refl
length-emit a (op o rest) = omega (arith, length-emit (a + 1) rest)
length-emit a (loop body rest) =
    let e = length-append (to_le_bytes (a + 10 + size body)) (
      emit (a + 5) body ++ byte_of jnz ∷ (to_le_bytes (a + 5) ++ emit (a + 10 + size body) rest)) in
    let f =
      length-append (emit (a + 5) body)
        (byte_of jnz ∷ (to_le_bytes (a + 5) ++ emit (a + 10 + size body) rest)) in
    omega (
      arith,
      e,
      f,
      length-emit (a + 5) body,
      length-emit (a + 10 + size body) rest,
      length-append (to_le_bytes (a + 5)) (emit (a + 10 + size body) rest),
      length-to_le_bytes (a + 5),
      length-to_le_bytes (a + 10 + size body),
    )

pub size-append : (b c : Block) → size (append b c) ≡ size b + size c
unfolding size append
size-append end c = omega arith
size-append (op o rest) c = omega (arith, size-append rest c)
size-append (loop body rest) c = omega (arith, size-append rest c)

pub spell-append : (b c : Block) → spell (append b c) ≡ spell b ++ spell c
unfolding spell append
spell-append end c = refl
spell-append (op o rest) c = ap (λ l. command o ∷ l) (spell-append rest c)
spell-append (loop body rest) c =
    ap (λ l. open_loop ∷ (spell body ++ close_loop ∷ l)) (spell-append rest c)
    ∙ ap (λ l. open_loop ∷ l) (sym (append_assoc (spell body) (close_loop ∷ spell rest) (spell c)))

pub emit-append : (a : ℕ) (b c : Block) → emit a (append b c) ≡ emit a b ++ emit (a + size b) c
unfolding emit size append
emit-append a end c = ap (λ n. emit n c) (omega arith)
emit-append a (op o rest) c =
    ap (λ l. byte_of o ∷ l)
      (emit-append (a + 1) rest c ∙ ap (λ n. emit (a + 1) rest ++ emit n c) (omega arith))
emit-append a (loop body rest) c =
    let b = a + 10 + size body in
    let same : b + size rest ≡ a + (10 + size body + size rest) = omega arith in
    let e : emit b (append rest c) ≡ emit b rest ++ emit (a + (10 + size body + size rest)) c =
      emit-append b rest c ∙ ap (λ n. emit b rest ++ emit n c) same in
    ap
      (λ l.
        byte_of jz
        ∷ (to_le_bytes b ++ (emit (a + 5) body ++ byte_of jnz ∷ (to_le_bytes (a + 5) ++ l))))
      e
    ∙ simp append_assoc
