-- ===== src/Heap.antt =====
-- kernel/src/heap.rs: free lists for ten sizes of blocks over a fallback allocator, which is a
-- crate that the kernel uses and here a parameter. A free list is the list of its blocks'
-- addresses; the source links the blocks through their first words. The null pointer is 0.
pub mod Classes
pub mod Reuse
mod Tests
use servos.Prelude.{ℕ, ◌+◌, Option, none, some, List, [], ◌∷◌, max, leb, set, get_or, if◌then◌else◌}

pub record Layout : Type 0 where
  pub size : ℕ
  pub align : ℕ

-- what the block allocator uses of `linked_list_allocator::Heap`
pub record Fallback {ℓ} (H : Type ℓ) : Type ℓ where
  pub allocate_first_fit : Layout → H → Option (ℕ × H)
  pub deallocate : ℕ → Layout → H → H

pub record BlockAlloc {ℓ} (H : Type ℓ) : Type ℓ where
  pub blocks : List (List ℕ)
  pub fallback : H

abbrev pub block_sizes : List ℕ
block_sizes = 0x8 ∷ 0x10 ∷ 0x20 ∷ 0x40 ∷ 0x80 ∷ 0x100 ∷ 0x200 ∷ 0x400 ∷ 0x800 ∷ 0x1000 ∷ []

-- `BLOCK_SIZES.iter().position(|&s| s >= min)`, with `i` the number of the first size
unfoldable pub position : ℕ → ℕ → List ℕ → Option ℕ
position i m [] = none
position i m (s ∷ sizes) = let rest = position (i + 1) m sizes in if leb m s then some i else rest

-- BlockAlloc::list_index
unfoldable pub list_index : Layout → Option ℕ
list_index l = position 0 (max l.size l.align) block_sizes

module _ {ℓ} {H : Type ℓ} (f : Fallback H) where
  -- BlockAlloc::fallback_alloc
  unfoldable pub fallback_alloc : Layout → BlockAlloc H → ℕ × BlockAlloc H
  fallback_alloc l b = elim (f.allocate_first_fit l b.fallback) [
    | none ↦ (0, b)
    | some (p, h) ↦ (p, record b { fallback = h })
  ]

  -- BlockAlloc::alloc
  unfoldable pub alloc : Layout → BlockAlloc H → ℕ × BlockAlloc H
  alloc l b = elim (list_index l) [
    | none ↦ fallback_alloc l b
    | some i ↦ elim (get_or b.blocks i []) [
      | [] ↦
          fallback_alloc (record { size = get_or block_sizes i 0; align = get_or block_sizes i 0 })
            b
      | p ∷ rest ↦ (p, record b { blocks = set b.blocks i rest })
    ]
  ]

  -- BlockAlloc::dealloc
  unfoldable pub dealloc : ℕ → Layout → BlockAlloc H → BlockAlloc H
  dealloc p l b = elim (list_index l) [
    | none ↦ record b { fallback = f.deallocate p l b.fallback }
    | some i ↦ record b { blocks = set b.blocks i (p ∷ get_or b.blocks i []) }
  ]
