-- ===== src/Heap/Tests.antt =====
-- The block allocator over a fallback that hands out one page after the other.
use servos.Prelude.{
  ℕ, ◌+◌, ◌<◌, ◌≤◌, ◌≡◌, ◌⊎◌, refl, none, some, [], length, max, get_or, replicate, arith,
}
use servos.Heap.{
  Layout, Fallback, BlockAlloc, block_sizes, list_index, position, alloc, dealloc, fallback_alloc,
}
use servos.Heap.Classes.{Below, list_index-cases}
use servos.Heap.Reuse.{alloc-dealloc}

abbrev pages : Fallback ℕ
pages = record {
  allocate_first_fit = λ l next. some (next, next + 0x1000);
  deallocate = λ p l next. next;
}

abbrev fresh : BlockAlloc ℕ
fresh = record { blocks = replicate 10 []; fallback = 0x80000000 }

-- a request of 24 bytes, and one of 17 with a larger alignment, are of the same class
abbrev small : Layout
small = record { size = 24; align = 8 }

abbrev aligned : Layout
aligned = record { size = 17; align = 32 }

takes_page :
    alloc pages small fresh
    ≡ (0x80000000, record { blocks = replicate 10 []; fallback = 0x80001000 })
unfolding alloc list_index position fallback_alloc
takes_page = refl

list_index-cases_example :
    ((list_index small ≡ none) × (0x1000 < max 24 8))
    ⊎ ((k : ℕ) × (list_index small ≡ some k)
        × (k < length block_sizes)
        × (max 24 8 ≤ get_or block_sizes k 0)
        × Below (max 24 8) block_sizes k)
list_index-cases_example = list_index-cases small

alloc-dealloc_example :
    alloc pages aligned (dealloc pages 0x80000000 small fresh) ≡ (0x80000000, fresh)
unfolding list_index position
alloc-dealloc_example = alloc-dealloc pages 0x80000000 small aligned 2 fresh refl refl (omega arith)
