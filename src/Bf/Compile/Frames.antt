-- ===== src/Bf/Compile/Frames.antt =====
-- What the compiler has written at any point: the blocks before each open bracket, the innermost
-- first, and the block since the last one.
use servos.Prelude.{
  ℕ, ◌+◌, ◌%◌, ◌^◌, ◌<◌, ◌≡◌, refl, ap, ap₂, sym, ◌∙◌, List, [], ◌∷◌, ◌++◌, length, take, drop,
  take-append, drop-append, replicate, length-append, append_assoc, append-nil, arith, leb, ltb,
  lt→ltb, true, if◌then◌else◌,
}
use servos.Bf.Code.{Opcode, jz, jnz, byte_of, to_le_bytes, length-to_le_bytes}
use servos.Bf.Compile.{
  command, open_loop, close_loop, Emitted, Compiled, ok, err, panic, unmatched_r, compile_symbol,
  close, patch, ◌>>=◌,
}
use servos.Bf.Tree.{Block, end, op, loop, size, emit, append, length-emit, emit-append}

-- where the innermost block starts
unfoldable pub base : List Block → ℕ
base [] = 0
base (c ∷ o) = base o + size c + 5

-- the code before it, with a hole for each open bracket
unfoldable pub code_before : List Block → List ℕ
unfolding base
code_before [] = []
code_before (c ∷ o) = (code_before o ++ (emit (base o) c ++ byte_of jz ∷ [])) ++ replicate 4 0

unfoldable pub holes : List Block → List ℕ
unfolding base
holes [] = []
holes (c ∷ o) = (base o + size c + 1) ∷ holes o

unfoldable pub state : List Block → Block → Emitted
unfolding base code_before holes
state o b = record { code = code_before o ++ emit (base o) b; jumps = holes o }

length-code_before : (o : List Block) → length (code_before o) ≡ base o
unfolding base code_before
length-code_before [] = refl
length-code_before (c ∷ o) = omega (
  arith,
  length-append (code_before o ++ (emit (base o) c ++ byte_of jz ∷ [])) (replicate 4 0),
  length-append (code_before o) (emit (base o) c ++ byte_of jz ∷ []),
  length-append (emit (base o) c) (byte_of jz ∷ []),
  length-emit (base o) c,
  length-code_before o,
)

length-code : (o : List Block) (b : Block) → length (state o b).code ≡ base o + size b
unfolding state
length-code o b = omega (
  arith,
  length-append (code_before o) (emit (base o) b),
  length-code_before o,
  length-emit (base o) b,
)

state-eq :
    {c c' j j' : List ℕ}
    → c ≡ c'
    → j ≡ j'
    → ◌≡◌ {A = Emitted} (record { code = c; jumps = j }) (record { code = c'; jumps = j' })
state-eq p q = λ i. record { code = p i; jumps = q i }

pub compile-command :
    (x : Opcode) (o : List Block) (b : Block)
    → compile_symbol (command x) (state o b) ≡ ok (state o (append b (op x end)))
unfolding compile_symbol state emit
compile-command x o b = ap ok (
    state-eq
      (append_assoc (code_before o) (emit (base o) b) (byte_of x ∷ [])
        ∙ ap (λ l. code_before o ++ l) (sym (emit-append (base o) b (op x end))))
      refl)

pub compile-open :
    (o : List Block) (b : Block)
    → base o + size b + 1 < 2 ^ 32
    → compile_symbol open_loop (state o b) ≡ ok (state (b ∷ o) end)
unfolding compile_symbol state base code_before holes emit
compile-open o b h = ap ok (
    state-eq
      (ap (λ l. l ++ replicate 4 0)
          (append_assoc (code_before o) (emit (base o) b) (byte_of jz ∷ []))
        ∙ sym
            (append-nil ((code_before o ++ (emit (base o) b ++ byte_of jz ∷ [])) ++ replicate 4 0)))
      (ap (λ n. n ∷ holes o) (here (length-code o b))))
  where
    here : {n : ℕ} → n ≡ base o + size b → (n + 1) % 2 ^ 32 ≡ base o + size b + 1
    here e = omega arith

pub compile-close_none : (b : Block) → compile_symbol close_loop (state [] b) ≡ err unmatched_r
unfolding compile_symbol close state holes
compile-close_none b = refl

-- the hole at `at`, between `xs` and `ys`, is filled
patch-hole :
    (xs ys word : List ℕ) (at : ℕ)
    → length xs ≡ at
    → patch ((xs ++ replicate 4 0) ++ ys) at word ≡ ok (xs ++ (word ++ ys))
unfolding patch
patch-hole xs ys word at h =
    ap (λ t. if t then ok (take at code ++ (word ++ drop (at + 4) code)) else panic) fits
    ∙ ap ok (
        ap₂ (λ a d. a ++ (word ++ d))
          (ap (take at) (append_assoc xs (replicate 4 0) ys)
            ∙ take-append at xs (replicate 4 0 ++ ys) h)
          (drop-append (at + 4) (xs ++ replicate 4 0) ys
            (omega (arith, length-append xs (replicate 4 0)))))
  where
    code : List ℕ
    code = (xs ++ replicate 4 0) ++ ys

    fits : leb (at + 4) (length code) ≡ true
    fits = ground (arith, length-append (xs ++ replicate 4 0) ys, length-append xs (replicate 4 0))

-- A closing bracket closes the loop that was opened last.
pub compile-close :
    (c : Block) (o : List Block) (b : Block)
    → base (c ∷ o) + size b + 5 < 2 ^ 32
    → compile_symbol close_loop (state (c ∷ o) b) ≡ ok (state o (append c (loop b end)))
unfolding compile_symbol close state base code_before holes emit
compile-close c o b h =
    ap (λ t. if t then patched (length code2 % 2 ^ 32) else panic) small
    ∙ (ap patched here
        ∙ (ap (λ l. patch l last (to_le_bytes (start + 10 + size b)) >>= with_jumps)
              (append_assoc (xs ++ replicate 4 0) (emit (start + 5) b)
                (byte_of jnz ∷ to_le_bytes (last + 4)))
            ∙ (ap (λ r. r >>= with_jumps)
                  (patch-hole xs (emit (start + 5) b ++ (byte_of jnz ∷ to_le_bytes (last + 4)))
                    (to_le_bytes (start + 10 + size b)) last length-xs)
                ∙ ap ok (state-eq regroup refl))))
  where
    start : ℕ
    start = base o + size c

    last : ℕ
    last = base o + size c + 1

    xs : List ℕ
    xs = code_before o ++ (emit (base o) c ++ byte_of jz ∷ [])

    code2 : List ℕ
    code2 = (state (c ∷ o) b).code ++ (byte_of jnz ∷ to_le_bytes (last + 4))

    with_jumps : List ℕ → Compiled Emitted
    with_jumps l = ok record { code = l; jumps = holes o }

    patched : ℕ → Compiled Emitted
    patched n = patch code2 last (to_le_bytes n) >>= with_jumps

    small : ltb (last + 4) (2 ^ 32) ≡ true
    small = lt→ltb (last + 4) (2 ^ 32) (omega arith)

    length-xs : length xs ≡ last
    length-xs = omega (
      arith,
      length-append (code_before o) (emit (base o) c ++ byte_of jz ∷ []),
      length-code_before o,
      length-append (emit (base o) c) (byte_of jz ∷ []),
      length-emit (base o) c,
    )

    here : length code2 % 2 ^ 32 ≡ start + 10 + size b
    here = omega (
      arith,
      length-append (state (c ∷ o) b).code (byte_of jnz ∷ to_le_bytes (last + 4)),
      length-code (c ∷ o) b,
      length-to_le_bytes (last + 4),
    )

    regroup :
        xs
          ++ (to_le_bytes (start + 10 + size b)
              ++ (emit (start + 5) b ++ (byte_of jnz ∷ to_le_bytes (last + 4))))
        ≡ code_before o ++ emit (base o) (append c (loop b end))
    regroup =
        append_assoc (code_before o) (emit (base o) c ++ byte_of jz ∷ [])
          (rest (to_le_bytes (last + 4)))
        ∙ ap (λ l. code_before o ++ l)
            (append_assoc (emit (base o) c) (byte_of jz ∷ []) (rest (to_le_bytes (last + 4)))
              ∙ (ap (λ l. emit (base o) c ++ byte_of jz ∷ rest l) back
                  ∙ sym (emit-append (base o) c (loop b end))))
      where
        rest : List ℕ → List ℕ
        rest l = to_le_bytes (start + 10 + size b) ++ (emit (start + 5) b ++ byte_of jnz ∷ l)

        back : to_le_bytes (last + 4) ≡ to_le_bytes (start + 5) ++ []
        back =
            let e : last + 4 ≡ start + 5 = omega arith in
            ap to_le_bytes e ∙ sym (append-nil (to_le_bytes (start + 5)))
