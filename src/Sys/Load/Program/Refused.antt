-- ===== src/Sys/Load/Program/Refused.antt =====
-- The program headers on which the kernel panics.
use servos.Prelude.{
  ℕ, ◌+◌, ◌≤◌, ◌<◌, ◌≡◌, ◌⊎◌, inl, inr, true, false, Bool, List, ◌∷◌, length, arith,
}
use servos.Prelude.Outcome.{done, panic}
use servos.Vmm.Memory.{Memory}
use servos.Vmm.Paging.{map_new_pages}
use servos.Fs.Path.{Bytes}
use servos.Elf.{Phdr}
use servos.Sys.Code.{panic}
use servos.Sys.Load.Program.{segment_perms, file_slice, load_segment, load_segments, pt_load}

-- The assertion of map_new_pages.
map_new_pages-empty :
    (pt va size perms : ℕ) (zeroed : Bool) (m : Memory)
    → size ≡ 0
    → map_new_pages pt va size perms zeroed m ≡ panic
unfolding map_new_pages
map_new_pages-empty pt va size perms zeroed m e = ground arith

file_slice-outside :
    (raw : Bytes) (offset filesz : ℕ) (m : Memory)
    → length raw < offset + filesz
    → file_slice raw offset filesz m ≡ (panic, m)
unfolding file_slice
file_slice-outside raw offset filesz m h = ground arith

-- The segment cannot be loaded: it takes no memory, or its pages are mapped but its bytes are not all
-- in the file.
abbrev pub IsBad : ℕ → Bytes → Phdr → Memory → Type 0
IsBad pt raw ph m =
    (ph.memsz ≡ 0)
    ⊎ ((m1 : Memory) × (map_new_pages pt ph.vaddr ph.memsz (segment_perms ph.flags) false m
          ≡ done (true, m1))
        × (length raw < ph.offset + ph.filesz))

load_segment-panics :
    (pt : ℕ) (raw : Bytes) (ph : Phdr) (va : ℕ) (m : Memory)
    → ph.filesz ≤ ph.memsz
    → IsBad pt raw ph m
    → (m' : Memory) × (load_segment pt raw ph va m ≡ (panic, m'))
unfolding load_segment
load_segment-panics pt raw ph va m fits (inl e) =
    (m, ground (arith, map_new_pages-empty pt ph.vaddr ph.memsz (segment_perms ph.flags) false m e))
load_segment-panics pt raw ph va m fits (inr (m1, e, h)) =
    (m1, ground (arith, e, file_slice-outside raw ph.offset ph.filesz m1 h))

-- A program header of the type PT_LOAD, whose part of the file is not larger than its memory, makes
-- the kernel panic when it takes no memory at all, or when its pages can be mapped but it names bytes
-- behind the end of the file.
pub load_segments-panics :
    (pt : ℕ) (raw : Bytes) (ph : Phdr) (phs : List Phdr) (va : ℕ) (m : Memory)
    → ph.typ ≡ pt_load
    → ph.filesz ≤ ph.memsz
    → IsBad pt raw ph m
    → (m' : Memory) × (load_segments pt raw (ph ∷ phs) va m ≡ (panic, m'))
unfolding load_segments
load_segments-panics pt raw ph phs va m t fits bad =
    let (m', e) = load_segment-panics pt raw ph va m fits bad in (m', ground (arith, e))
