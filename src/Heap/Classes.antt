-- ===== src/Heap/Classes.antt =====
-- `list_index`: the class of a layout is the first whose blocks are large enough for it.
use servos.Prelude.{
  ℕ, zero, suc, ◌+◌, ◌<◌, ◌≤◌, ◌≡◌, ◌⊎◌, inl, inr, refl, ap, ◌∙◌, none, some, List, [], ◌∷◌, length,
  get_or, max, leb, Bool-cases, if◌then◌else◌, arith,
}
use servos.Heap.{Layout, block_sizes, position, list_index}

-- Every size below the `k`-th is less than `m`.
abbrev pub Below : ℕ → List ℕ → ℕ → Type 0
Below m sizes k = (j : ℕ) → j < k → get_or sizes j 0 < m

position-cases :
    (i m : ℕ) (sizes : List ℕ)
    → ((position i m sizes ≡ none) × Below m sizes (length sizes))
      ⊎ ((k : ℕ) × (position i m sizes ≡ some (i + k))
          × (k < length sizes)
          × (m ≤ get_or sizes k 0)
          × Below m sizes k)
unfolding position
position-cases i m [] = inl (refl, λ j h. absurd (omega arith))
position-cases i m (s ∷ sizes) = elim (Bool-cases (leb m s)) [
  | inl e ↦
      let at : i ≡ i + 0 = omega arith in
      inr (
        0,
        ap (λ b. if b then some i else position (i + 1) m sizes) e ∙ ap some at,
        omega arith,
        ground arith,
        λ j h. absurd (omega arith),
      )
  | inr e ↦
      let small : s < m = ground arith in
      elim (position-cases (i + 1) m sizes) [
        | inl (n, b) ↦ inl (
          ap (λ b. if b then some i else position (i + 1) m sizes) e ∙ n,
          extend small (length sizes) b,
        )
        | inr (k, n, lt, fits, b) ↦
            let at : i + 1 + k ≡ i + suc k = omega arith in
            inr (
              suc k,
              ap (λ b. if b then some i else position (i + 1) m sizes) e ∙ (n ∙ ap some at),
              omega arith,
              fits,
              extend small k b,
            )
      ]
]
  where
    extend : s < m → (k : ℕ) → Below m sizes k → Below m (s ∷ sizes) (suc k)
    extend h k b zero lt = h
    extend h k b (suc j) lt = b j (omega arith)

-- A layout has a class exactly when its size and its alignment are at most a page; the class's
-- blocks are then large enough, and those of every class before it are too small.
pub list_index-cases :
    (l : Layout)
    → ((list_index l ≡ none) × (0x1000 < max l.size l.align))
      ⊎ ((k : ℕ) × (list_index l ≡ some k)
          × (k < length block_sizes)
          × (max l.size l.align ≤ get_or block_sizes k 0)
          × Below (max l.size l.align) block_sizes k)
unfolding list_index
list_index-cases l = elim (position-cases 0 (max l.size l.align) block_sizes) [
  | inl (e, b) ↦ inl (e, b 9 (omega arith))
  | inr (k, e, lt, fits, b) ↦ inr (k, e ∙ ap some (omega arith), lt, fits, b)
]
