-- ===== src/Vmm/Copy.antt =====
-- `copy_to`, `copy_from` and `PhysIter::zero` of kernel/src/vmm/vaddr.rs. A loop over the ranges of
-- an iterator is a recursion on fuel: each range takes at least one byte off the iterator's size, so
-- the size and one more round for the end are enough.
pub mod Enough
pub mod Back
use servos.Prelude.{
  ℕ, zero, suc, ◌+◌, ◌-◌, ◌^◌, Bool, true, false, Option, none, some, List, [], ◌∷◌, ◌++◌, length,
  take, drop, get_or, replicate, ltb, leb, ◌&&◌, if◌then◌else◌, bit_or,
}
use servos.Prelude.Outcome.{Outcome, done, panic}
use servos.Vmm.Memory.{Memory}
use servos.Vmm.Pte.Flag
use servos.Vmm.Translate.{Range, PhysIter, Item, finished, bad_addr, range, next_range}

-- `copy_nonoverlapping` from a slice to physical memory
unfoldable pub write_bytes : ℕ → List ℕ → Memory → Memory
write_bytes start bs m = record m {
  bytes =
      λ p. if leb start p && ltb p (start + length bs) then get_or bs (p - start) 0 else m.bytes p;
}

-- `copy_nonoverlapping` from `n` bytes of physical memory
unfoldable pub read_bytes : ℕ → ℕ → Memory → List ℕ
read_bytes start zero m = []
read_bytes start (suc n) m = m.bytes start ∷ read_bytes (start + 1) n m

-- VirtAddr::iter_phys
unfoldable pub iter_phys : ℕ → ℕ → ℕ → PhysIter
iter_phys va size perms = record { va = va; size = size; perms = perms }

module _ (pt : ℕ) where
  -- the loop of copy_to; `false` is `VirtToPhysErr`
  unfoldable pub copy_to_loop : ℕ → PhysIter → List ℕ → Memory → Outcome (Bool × Memory)
  copy_to_loop zero it buf m = panic
  copy_to_loop (suc fuel) it buf m = elim (next_range pt it m) [
    | panic ↦ panic
    | done (finished, it') ↦ done (true, m)
    | done (bad_addr, it') ↦ done (false, m)
    | done (range r, it') ↦
        copy_to_loop fuel it' (drop r.len buf) (write_bytes r.start (take r.len buf) m)
  ]

  -- VirtAddr::copy_to
  unfoldable pub copy_to : ℕ → List ℕ → Option ℕ → Memory → Outcome (Bool × Memory)
  copy_to va buf perms m =
      let required : ℕ = elim perms [ none ↦ bit_or Flag.u Flag.w | some p ↦ p ] in
      copy_to_loop (suc (length buf)) (iter_phys va (length buf) required) buf m

  -- the loop of copy_from: the bytes of the buffer
  unfoldable pub copy_from_loop : ℕ → PhysIter → Memory → Outcome (Option (List ℕ))
  copy_from_loop zero it m = panic
  copy_from_loop (suc fuel) it m = elim (next_range pt it m) [
    | panic ↦ panic
    | done (finished, it') ↦ done (some [])
    | done (bad_addr, it') ↦ done none
    | done (range r, it') ↦ elim (copy_from_loop fuel it' m) [
      | panic ↦ panic
      | done none ↦ done none
      | done (some bs) ↦ done (some (read_bytes r.start r.len m ++ bs))
    ]
  ]

  -- VirtAddr::copy_from, into a buffer of `n` bytes
  unfoldable pub copy_from : ℕ → ℕ → Memory → Outcome (Option (List ℕ))
  copy_from va n m = copy_from_loop (suc n) (iter_phys va n (bit_or Flag.u Flag.r)) m

  -- PhysIter::zero; an address that does not translate is a panic
  unfoldable pub zero_loop : ℕ → PhysIter → Memory → Outcome Memory
  zero_loop zero it m = panic
  zero_loop (suc fuel) it m = elim (next_range pt it m) [
    | panic ↦ panic
    | done (finished, it') ↦ done m
    | done (bad_addr, it') ↦ panic
    | done (range r, it') ↦ zero_loop fuel it' (write_bytes r.start (replicate r.len 0) m)
  ]

  unfoldable pub zero_all : PhysIter → Memory → Outcome Memory
  zero_all it m = zero_loop (suc it.size) it m
