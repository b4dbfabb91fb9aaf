-- ===== src/Bf/Compile/Correct.antt =====
-- `compile` against the blocks that a program spells.
use servos.Prelude.{
  ℕ, ◌+◌, ◌*◌, ◌^◌, ◌<◌, ◌≡◌, refl, ap, subst, sym, ◌∙◌, List, [], ◌∷◌, ◌++◌, length, append_assoc,
  append-nil, arith,
}
use servos.Bf.Code.{halt, byte_of}
use servos.Bf.Compile.{
  Symbol, command, open_loop, close_loop, comment, symbol, Emitted, Compiled, ok, err, unmatched_r,
  unmatched_l, compile_symbol, compile_bytes, finish, compile, ◌>>=◌,
}
use servos.Bf.Compile.Frames.{
  base, state, code_before, holes, compile-command, compile-open, compile-close, compile-close_none,
}
use servos.Bf.Tree.{
  Block, end, op, loop, size, emit, spell, append, symbols, keep, size-append, spell-append,
}

-- the symbols read so far
spelled : List Block → List Symbol
spelled [] = []
spelled (c ∷ o) = spelled o ++ (spell c ++ open_loop ∷ [])

-- What becomes of a program.
pub data Verdict (program : List Symbol) : Compiled (List ℕ) → Type 0 where
  balanced : (b : Block) → program ≡ spell b → Verdict program (ok (emit 0 b ++ byte_of halt ∷ []))
  extra_close :
      (b : Block) (rest : List Symbol)
      → program ≡ spell b ++ close_loop ∷ rest
      → Verdict program (err unmatched_r)
  extra_open :
      (before : List Symbol) (b : Block)
      → program ≡ before ++ open_loop ∷ spell b
      → Verdict program (err unmatched_l)

compile-comment : (e : Emitted) → compile_symbol comment e ≡ ok e
unfolding compile_symbol
compile-comment e = refl

regroup : (a b x s : List Symbol) → (a ++ b) ++ (x ++ s) ≡ (a ++ (b ++ x)) ++ s
regroup a b x s = simp append_assoc

nest :
    (a c b s : List Symbol)
    → ((a ++ (c ++ open_loop ∷ [])) ++ b) ++ close_loop ∷ s
      ≡ (a ++ (c ++ open_loop ∷ (b ++ close_loop ∷ []))) ++ s
nest a c b s = simp append_assoc

module _ (program : List Symbol) where
  -- the end of the program
  finish-Verdict :
      (o : List Block) (b : Block)
      → program ≡ spelled o ++ spell b
      → Verdict program (finish (state o b))
  unfolding finish state spelled
  finish-Verdict [] b e = balanced b e
  finish-Verdict (c ∷ o) b e = extra_open (spelled o ++ spell c) b (e ∙ simp append_assoc)

  -- what the rest of the program comes to, from any point
  abbrev Later : List ℕ → Type 0
  Later bytes =
      (o : List Block) (b : Block)
      → base o + size b + 5 * length bytes + 5 < 2 ^ 32
      → program ≡ (spelled o ++ spell b) ++ symbols bytes
      → Verdict program (compile_bytes bytes (state o b) >>= finish)

  loop-Verdict :
      (o : List Block) (b : Block) (bytes : List ℕ)
      → base o + size b + 5 * length bytes + 5 < 2 ^ 32
      → program ≡ (spelled o ++ spell b) ++ symbols bytes
      → Verdict program (compile_bytes bytes (state o b) >>= finish)
  unfolding compile_bytes symbols spelled spell size base
  loop-Verdict o b [] h e = finish-Verdict o b (e ∙ append-nil (spelled o ++ spell b))
  loop-Verdict o b (byte ∷ bytes) h e =
      let ih : Later bytes = λ o' b' h' e'. loop-Verdict o' b' bytes h' e' in
      after ih (symbol byte) o e h
    where
      from :
          {r r' : Compiled Emitted}
          → r ≡ r'
          → Verdict program ((r' >>= λ x. compile_bytes bytes x) >>= finish)
          → Verdict program ((r >>= λ x. compile_bytes bytes x) >>= finish)
      from q v =
          subst (λ r. Verdict program ((r >>= λ x. compile_bytes bytes x) >>= finish)) (sym q) v

      after :
          Later bytes
          → (s : Symbol) (o : List Block)
          → program ≡ (spelled o ++ spell b) ++ keep s (symbols bytes)
          → base o + size b + 5 * length (byte ∷ bytes) + 5 < 2 ^ 32
          → Verdict program
              ((compile_symbol s (state o b) >>= λ x. compile_bytes bytes x) >>= finish)
      after ih (command x) o e h = from (compile-command x o b) (
          ih o (append b (op x end)) (omega (arith, size-append b (op x end))) (
            e
            ∙ (regroup (spelled o) (spell b) (command x ∷ []) (symbols bytes)
                ∙ ap (λ l. (spelled o ++ l) ++ symbols bytes) (sym (spell-append b (op x end))))))
      after ih open_loop o e h =
          from (compile-open o b (omega arith))
            (ih (b ∷ o) end (omega arith) (e ∙ simp (append_assoc, append-nil)))
      after ih close_loop [] e h = from (compile-close_none b) (extra_close b (symbols bytes) e)
      after ih close_loop (c ∷ o) e h = from (compile-close c o b (omega arith)) (
          ih o (append c (loop b end)) (omega (arith, size-append c (loop b end))) (
            e
            ∙ (nest (spelled o) (spell c) (spell b) (symbols bytes)
                ∙ ap (λ l. (spelled o ++ l) ++ symbols bytes) (sym (spell-append c (loop b end))))))
      after ih comment o e h = from (compile-comment (state o b)) (ih o b (omega arith) e)

-- A program of at most 858993456 bytes compiles to the code of the block that its symbols spell when
-- its brackets match; else it is refused for a closing bracket with no opening one before it, or
-- for an opening one with no closing one behind it. The compiler does not panic.
pub compile-Verdict :
    (bytes : List ℕ) → 5 * length bytes + 5 < 2 ^ 32 → Verdict (symbols bytes) (compile bytes)
unfolding compile state base code_before holes emit spelled spell size
compile-Verdict bytes h = loop-Verdict (symbols bytes) [] end bytes (omega arith) refl
