-- ===== src/Vmm/Copy/Enough.antt =====
-- The copies end: the fuel is enough, and nothing overflows below the top page of the address space.
use servos.Prelude.{
  ℕ, zero, suc, ◌+◌, ◌-◌, ◌^◌, ◌<◌, ◌≡◌, ◌≢◌, ◌⊎◌, inl, inr, refl, sym, min, Option, none, some,
  List, [], ◌++◌, length, length-append, arith, Option-cases, eq-or-ne, subst, bit_or,
}
use servos.Prelude.Outcome.{Outcome, done, panic}
use servos.Vmm.Vaddr.{page_size, page_number, page_offset}
use servos.Vmm.Vaddr.Fields.{page_number-div, page_offset-mod}
use servos.Vmm.Memory.{Memory}
use servos.Vmm.Pte.Flag
use servos.Vmm.Translate.{PhysIter, Item, finished, bad_addr, range, next_range, to_phys}
use servos.Vmm.Copy.{iter_phys, copy_from, copy_from_loop, read_bytes}

-- An iterator that has nothing left, or stays below the top page.
abbrev pub IsLow : PhysIter → Type 0
IsLow it = (it.size ≡ 0) ⊎ (it.va + it.size + page_size < 2 ^ 64)

-- What `next` yields: the end, an error, or a range that takes some bytes off the iterator.
pub data Next (it : PhysIter) : Outcome (Item × PhysIter) → Type 0 where
  ends : it.size ≡ 0 → Next it (done (finished, it))
  fails : Next it (done (bad_addr, it))
  yields :
      (start n : ℕ) (it' : PhysIter)
      → 0 < n
      → n + it'.size ≡ it.size
      → IsLow it'
      → Next it (done (range (record { start = start; len = n }), it'))

pub next_range-end :
    (pt : ℕ) (it : PhysIter) (m : Memory) → it.size ≡ 0 → next_range pt it m ≡ done (finished, it)
unfolding next_range
next_range-end pt it m e = ground arith

next_range-fail :
    (pt : ℕ) (it : PhysIter) (m : Memory)
    → it.size ≢ 0
    → to_phys pt it.va it.perms m ≡ none
    → next_range pt it m ≡ done (bad_addr, it)
unfolding next_range
next_range-fail pt it m ne e = ground arith

-- the bytes from an address to the end of its page, if that many are asked for
abbrev pub chunk : PhysIter → ℕ
chunk it = min (page_size - page_offset it.va) it.size

abbrev pub advanced : PhysIter → PhysIter
advanced it = record it { va = page_number (it.va + page_size); size = it.size - chunk it }

pub next_range-yield :
    (pt : ℕ) (it : PhysIter) (m : Memory) (start : ℕ)
    → it.size ≢ 0
    → it.va + page_size < 2 ^ 64
    → to_phys pt it.va it.perms m ≡ some start
    → next_range pt it m ≡ done (range (record { start = start; len = chunk it }), advanced it)
unfolding next_range
next_range-yield pt it m start ne lt e = ground arith

advanced-IsLow : (it : PhysIter) → it.va + it.size + page_size < 2 ^ 64 → IsLow (advanced it)
advanced-IsLow it h =
    let o = page_offset-mod it.va in
    let p = page_number-div (it.va + page_size) (omega arith) in grind arith

pub next_range-Next :
    (pt : ℕ) (it : PhysIter) (m : Memory) → IsLow it → Next it (next_range pt it m)
next_range-Next pt it m low = elim (eq-or-ne it.size 0) [
  | inl e ↦ from (next_range-end pt it m e) (ends e)
  | inr ne ↦ elim low [
    | inl e ↦ absurd (ne e)
    | inr h ↦ elim (Option-cases (to_phys pt it.va it.perms m)) [
      | inl e ↦ from (next_range-fail pt it m ne e) fails
      | inr (start, e) ↦ from (next_range-yield pt it m start ne (omega arith) e) (
          yields start (chunk it) (advanced it) (omega (arith, page_offset-mod it.va)) (omega arith)
            (advanced-IsLow it h))
    ]
  ]
]
  where
    from : {r r' : Outcome (Item × PhysIter)} → r ≡ r' → Next it r' → Next it r
    from q n = subst (Next it) (sym q) n

length-read_bytes : (start n : ℕ) (m : Memory) → length (read_bytes start n m) ≡ n
unfolding read_bytes
length-read_bytes start zero m = refl
length-read_bytes start (suc n) m = omega (arith, length-read_bytes (start + 1) n m)

-- What a copy of `n` bytes comes to: an error, or that many bytes.
pub data Copied (n : ℕ) : Outcome (Option (List ℕ)) → Type 0 where
  refused : Copied n (done none)
  copied : (bs : List ℕ) → length bs ≡ n → Copied n (done (some bs))

copy_from_loop-Copied :
    (pt fuel : ℕ) (it : PhysIter) (m : Memory)
    → it.size < fuel
    → IsLow it
    → Copied it.size (copy_from_loop pt fuel it m)
unfolding copy_from_loop
copy_from_loop-Copied pt zero it m h low = absurd (omega arith)
copy_from_loop-Copied pt (suc fuel) it m h low =
    let ih : Later fuel = λ it' h' low'. copy_from_loop-Copied pt fuel it' m h' low' in
    after ih (next_range pt it m) (next_range-Next pt it m low)
  where
    Later : ℕ → Type 0
    Later fuel =
        (it' : PhysIter)
        → it'.size < fuel
        → IsLow it'
        → Copied it'.size (copy_from_loop pt fuel it' m)

    more :
        (start n : ℕ) (it' : PhysIter) (r : Outcome (Option (List ℕ)))
        → n + it'.size ≡ it.size
        → Copied it'.size r
        → Copied it.size (elim r [
          | panic ↦ panic
          | done none ↦ done none
          | done (some bs) ↦ done (some (read_bytes start n m ++ bs))
        ])
    more start n it' r e refused = refused
    more start n it' r e (copied bs l) =
        copied (read_bytes start n m ++ bs)
          (omega (arith, length-append (read_bytes start n m) bs, length-read_bytes start n m))

    after :
        Later fuel
        → (x : Outcome (Item × PhysIter)) → Next it x
        → Copied it.size (elim x [
          | panic ↦ panic
          | done (finished, it') ↦ done (some [])
          | done (bad_addr, it') ↦ done none
          | done (range r, it') ↦ elim (copy_from_loop pt fuel it' m) [
            | panic ↦ panic
            | done none ↦ done none
            | done (some bs) ↦ done (some (read_bytes r.start r.len m ++ bs))
          ]
        ])
    after ih x (ends e) = copied [] (sym e)
    after ih x fails = refused
    after ih x (yields start n it' lt e low') =
        more start n it' (copy_from_loop pt fuel it' m) e (ih it' (omega arith) low')

-- A copy from user memory that stays below the top page of the address space ends without a panic:
-- it fails, or it fills the whole buffer.
pub copy_from-Copied :
    (pt va n : ℕ) (m : Memory) → va + n + page_size < 2 ^ 64 → Copied n (copy_from pt va n m)
unfolding copy_from iter_phys
copy_from-Copied pt va n m h =
    copy_from_loop-Copied pt (suc n) (iter_phys va n (bit_or Flag.u Flag.r)) m (omega arith) (inr h)
