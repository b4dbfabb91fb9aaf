-- ===== src/Heap/Reuse.antt =====
-- Blocks that are given back are handed out again.
use servos.Prelude.{
  ℕ, zero, suc, ◌<◌, ◌≡◌, refl, ap, ◌∙◌, Option, none, some, List, [], ◌∷◌, length, get_or, set,
  get_or-set_self,
}
use servos.Heap.{
  Layout, Fallback, BlockAlloc, block_sizes, list_index, alloc, dealloc, fallback_alloc,
}

module _ {ℓ} {A : Type ℓ} where
  set-set-get_or : (xs : List A) (i : ℕ) (v d : A) → set (set xs i v) i (get_or xs i d) ≡ xs
  set-set-get_or [] i v d = refl
  set-set-get_or (x ∷ xs) zero v d = refl
  set-set-get_or (x ∷ xs) (suc i) v d = ap (λ l. x ∷ l) (set-set-get_or xs i v d)

module _ {ℓ} {H : Type ℓ} (f : Fallback H) where
  abbrev on_list : ℕ → BlockAlloc H → List ℕ → ℕ × BlockAlloc H
  on_list i b q = elim q [
    | [] ↦
        fallback_alloc f (record { size = get_or block_sizes i 0; align = get_or block_sizes i 0 })
          b
    | p ∷ rest ↦ (p, record b { blocks = set b.blocks i rest })
  ]

  alloc-class :
      (l : Layout) (i : ℕ) (b : BlockAlloc H) (p : ℕ) (rest : List ℕ)
      → list_index l ≡ some i
      → get_or b.blocks i [] ≡ p ∷ rest
      → alloc f l b ≡ (p, record b { blocks = set b.blocks i rest })
  unfolding alloc
  alloc-class l i b p rest e g =
      ap
        (λ (o : Option ℕ). elim o [
          | none ↦ fallback_alloc f l b
          | some k ↦ on_list k b (get_or b.blocks k [])
        ])
        e
      ∙ ap (on_list i b) g

  dealloc-class :
      (p : ℕ) (l : Layout) (i : ℕ) (b : BlockAlloc H)
      → list_index l ≡ some i
      → dealloc f p l b ≡ record b { blocks = set b.blocks i (p ∷ get_or b.blocks i []) }
  unfolding dealloc
  dealloc-class p l i b e =
      ap
        (λ (o : Option ℕ). elim o [
          | none ↦ record b { fallback = f.deallocate p l b.fallback }
          | some k ↦ record b { blocks = set b.blocks k (p ∷ get_or b.blocks k []) }
        ])
        e

  -- A block given back under a layout that has a class is what the next request of the same class
  -- gets, and the allocator is then as it was before, whatever the fallback allocator does.
  pub alloc-dealloc :
      (p : ℕ) (l l' : Layout) (i : ℕ) (b : BlockAlloc H)
      → list_index l ≡ some i
      → list_index l' ≡ some i
      → i < length b.blocks
      → alloc f l' (dealloc f p l b) ≡ (p, b)
  alloc-dealloc p l l' i b e e' lt =
      ap (alloc f l') (dealloc-class p l i b e)
      ∙ (alloc-class l' i (record b { blocks = set b.blocks i (p ∷ get_or b.blocks i []) }) p
            (get_or b.blocks i []) e' (get_or-set_self b.blocks i (p ∷ get_or b.blocks i []) [] lt)
          ∙ ap (λ bs. (p, record b { blocks = bs }))
              (set-set-get_or b.blocks i (p ∷ get_or b.blocks i []) []))
