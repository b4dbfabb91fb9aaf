-- ===== src/Vmm/Copy/Back.antt =====
-- Bytes that were written to a page are read back from it.
use servos.Prelude.{
  ℕ, zero, suc, ◌+◌, ◌-◌, ◌^◌, ◌<◌, ◌≤◌, ◌≡◌, refl, ap, ap₂, sym, ◌∙◌, min, true, Option, none,
  some, List, [], ◌∷◌, ◌++◌, length, length-append, append_assoc, append-nil, get_or, ltb, leb,
  ◌&&◌, if◌then◌else◌, bit_or, arith,
}
use servos.Prelude.Outcome.{Outcome, done, panic}
use servos.Vmm.Vaddr.{page_size, page_offset}
use servos.Vmm.Memory.{Memory}
use servos.Vmm.Pte.Flag
use servos.Vmm.Translate.{PhysIter, Item, finished, bad_addr, range, to_phys}
use servos.Vmm.Copy.{iter_phys, copy_from, copy_from_loop, read_bytes, write_bytes}
use servos.Vmm.Copy.Enough.{chunk, advanced, next_range-end, next_range-yield}

get_or-append : (pre bs : List ℕ) (b : ℕ) → get_or (pre ++ b ∷ bs) (length pre) 0 ≡ b
get_or-append [] bs b = refl
get_or-append (x ∷ pre) bs b = get_or-append pre bs b

byte_written :
    (start i : ℕ) (bs : List ℕ) (m : Memory)
    → i < length bs
    → (write_bytes start bs m).bytes (start + i) ≡ get_or bs i 0
unfolding write_bytes
byte_written start i bs m h =
    let there : (leb start (start + i) && ltb (start + i) (start + length bs)) ≡ true =
      ground arith in
    let index : start + i - start ≡ i = omega arith in
    ap (λ b. if b then get_or bs (start + i - start) 0 else m.bytes (start + i)) there
    ∙ ap (λ j. get_or bs j 0) index

read_bytes-behind :
    (start : ℕ) (pre bs : List ℕ) (m : Memory)
    → read_bytes (start + length pre) (length bs) (write_bytes start (pre ++ bs) m) ≡ bs
unfolding read_bytes
read_bytes-behind start pre [] m = refl
read_bytes-behind start pre (b ∷ bs) m =
    let all : length (pre ++ b ∷ bs) ≡ length pre + suc (length bs) = length-append pre (b ∷ bs) in
    let next : start + length pre + 1 ≡ start + length (pre ++ b ∷ []) =
      omega (arith, length-append pre (b ∷ [])) in
    let same : pre ++ b ∷ bs ≡ (pre ++ b ∷ []) ++ bs = sym (append_assoc pre (b ∷ []) bs) in
    ap₂ ◌∷◌
      (byte_written start (length pre) (pre ++ b ∷ bs) m (omega arith) ∙ get_or-append pre bs b)
      (ap₂ (λ i l. read_bytes i (length bs) (write_bytes start l m)) next same
        ∙ read_bytes-behind start (pre ++ b ∷ []) bs m)

pub read_bytes-write_bytes :
    (start : ℕ) (bs : List ℕ) (m : Memory)
    → read_bytes start (length bs) (write_bytes start bs m) ≡ bs
read_bytes-write_bytes start bs m =
    let here : start ≡ start + 0 = omega arith in
    ap (λ i. read_bytes i (length bs) (write_bytes start bs m)) here
    ∙ read_bytes-behind start [] bs m

-- what the loop of copy_from makes of the bytes behind a range, and of an item
abbrev joined : List ℕ → Outcome (Option (List ℕ)) → Outcome (Option (List ℕ))
joined piece o = elim o [
  | panic ↦ panic
  | done none ↦ done none
  | done (some bs) ↦ done (some (piece ++ bs))
]

abbrev handled : ℕ → ℕ → Memory → Outcome (Item × PhysIter) → Outcome (Option (List ℕ))
handled pt fuel m x = elim x [
  | panic ↦ panic
  | done (finished, it') ↦ done (some [])
  | done (bad_addr, it') ↦ done none
  | done (range r, it') ↦ joined (read_bytes r.start r.len m) (copy_from_loop pt fuel it' m)
]

-- A program reads at most the rest of a page from memory that it may read.
pub copy_from-page :
    (pt va n start : ℕ) (m : Memory)
    → 0 < n
    → n ≤ page_size - page_offset va
    → va + page_size < 2 ^ 64
    → to_phys pt va (bit_or Flag.u Flag.r) m ≡ some start
    → copy_from pt va n m ≡ done (some (read_bytes start n m))
unfolding copy_from copy_from_loop iter_phys
copy_from-page pt va zero start m h g low e = absurd (omega arith)
copy_from-page pt va (suc n) start m h g low e =
    let it = iter_phys va (suc n) (bit_or Flag.u Flag.r) in
    let whole : min (page_size - page_offset va) (suc n) ≡ suc n = omega arith in
    ap (handled pt (suc n) m) (next_range-yield pt it m start (λ z. omega (arith, z)) low e)
    ∙ (ap (λ x. joined (read_bytes start (chunk it) m) (handled pt n m x))
          (next_range-end pt (advanced it) m (omega arith))
        ∙ (ap (λ l. done (some l)) (append-nil (read_bytes start (chunk it) m))
            ∙ ap (λ l. done (some (read_bytes start l m))) whole))
