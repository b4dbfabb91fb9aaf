-- ===== src/Bf/Compile/Parse.antt =====
-- The symbols of a program spell one block at most, so what a program compiles to is the code of
-- the block that it spells.
use servos.Prelude.{
  ℕ, ◌+◌, ◌*◌, ◌^◌, ◌<◌, ◌≡◌, refl, ap, sym, ◌∙◌, Option, none, some, List, [], ◌∷◌, ◌++◌, length,
  append_assoc, append-nil, arith,
}
use servos.Bf.Code.{halt, byte_of}
use servos.Bf.Compile.{Symbol, command, open_loop, close_loop, comment, Compiled, ok, compile}
use servos.Bf.Compile.Correct.{Verdict, balanced, extra_close, extra_open, compile-Verdict}
use servos.Bf.Tree.{Block, end, op, loop, emit, append, spell, symbols}

-- the blocks before each open bracket, and the block since the last one
parse : List Symbol → List Block → Block → Option Block
parse [] [] b = some b
parse [] (c ∷ o) b = none
parse (command x ∷ l) o b = parse l o (append b (op x end))
parse (open_loop ∷ l) o b = parse l (b ∷ o) end
parse (close_loop ∷ l) [] b = none
parse (close_loop ∷ l) (c ∷ o) b = parse l o (append c (loop b end))
parse (comment ∷ l) o b = parse l o b

append_assoc_block : (a b c : Block) → append (append a b) c ≡ append a (append b c)
unfolding append
append_assoc_block end b c = refl
append_assoc_block (op x rest) b c = ap (op x) (append_assoc_block rest b c)
append_assoc_block (loop body rest) b c = ap (loop body) (append_assoc_block rest b c)

append_end : (a : Block) → append a end ≡ a
unfolding append
append_end end = refl
append_end (op x rest) = ap (op x) (append_end rest)
append_end (loop body rest) = ap (loop body) (append_end rest)

parse-spell :
    (b : Block) (l : List Symbol) (o : List Block) (before : Block)
    → parse (spell b ++ l) o before ≡ parse l o (append before b)
unfolding parse spell append
parse-spell end l o before = ap (parse l o) (sym (append_end before))
parse-spell (op x rest) l o before =
    parse-spell rest l o (append before (op x end))
    ∙ ap (parse l o) (append_assoc_block before (op x end) rest)
parse-spell (loop body rest) l o before =
    ap (λ s. parse s (before ∷ o) end) (append_assoc (spell body) (close_loop ∷ spell rest) l)
    ∙ (parse-spell body (close_loop ∷ spell rest ++ l) (before ∷ o) end
        ∙ (parse-spell rest l o (append before (loop body end))
            ∙ ap (parse l o) (append_assoc_block before (loop body end) rest)))

parse-whole : (b : Block) → parse (spell b) [] end ≡ some b
unfolding parse append
parse-whole b = ap (λ l. parse l [] end) (sym (append-nil (spell b))) ∙ parse-spell b [] [] end

parse-open :
    (before : List Symbol) (b : Block) (o : List Block) (c : Block)
    → parse (before ++ open_loop ∷ spell b) o c ≡ none
unfolding parse
parse-open [] b o c =
    ap (λ l. parse l (c ∷ o) end) (sym (append-nil (spell b))) ∙ parse-spell b [] (c ∷ o) end
parse-open (command x ∷ before) b o c = parse-open before b o (append c (op x end))
parse-open (open_loop ∷ before) b o c = parse-open before b (c ∷ o) end
parse-open (close_loop ∷ before) b [] c = refl
parse-open (close_loop ∷ before) b (d ∷ o) c = parse-open before b o (append d (loop c end))
parse-open (comment ∷ before) b o c = parse-open before b o c

only :
    (l : List Symbol) (r : Compiled (List ℕ)) (b : Block)
    → Verdict l r
    → l ≡ spell b
    → r ≡ ok (emit 0 b ++ byte_of halt ∷ [])
unfolding parse
only l r b (balanced c e) h =
    let q : some c ≡ some b =
      sym (parse-whole c) ∙ (ap (λ s. parse s [] end) (sym e ∙ h) ∙ parse-whole b) in
    let p : c ≡ b = cc q in ap (λ d. ok (emit 0 d ++ byte_of halt ∷ [])) p
only l r b (extra_close c rest e) h =
    let q : none ≡ some b =
      sym (parse-spell c (close_loop ∷ rest) [] end)
      ∙ (ap (λ s. parse s [] end) (sym e ∙ h) ∙ parse-whole b) in
    ground arith
only l r b (extra_open before c e) h =
    let q : none ≡ some b =
      sym (parse-open before c [] end) ∙ (ap (λ s. parse s [] end) (sym e ∙ h) ∙ parse-whole b) in
    ground arith

-- A program of at most 858993456 bytes whose symbols spell a block compiles to the block's code and
-- a halt.
pub compile-spell :
    (bytes : List ℕ) (b : Block)
    → 5 * length bytes + 5 < 2 ^ 32
    → symbols bytes ≡ spell b
    → compile bytes ≡ ok (emit 0 b ++ byte_of halt ∷ [])
compile-spell bytes b h e = only (symbols bytes) (compile bytes) b (compile-Verdict bytes h) e
