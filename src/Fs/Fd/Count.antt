-- ===== src/Fs/Fd/Count.antt =====
-- How much a transfer between a file and user memory moves.
use servos.Prelude.{
  ℕ, zero, suc, ◌+◌, ◌^◌, ◌<◌, ◌≤◌, ◌≡◌, refl, sym, ◌∙◌, subst, ◌≢◌, Bool, true, false, ltb,
  if◌then◌else◌, arith, inr, lt→ltb,
}
use servos.Prelude.Outcome.{Outcome, done, panic}
use servos.Vmm.Vaddr.{page_size}
use servos.Vmm.Memory.{Memory}
use servos.Vmm.Translate.{Range, PhysIter, Item, finished, bad_addr, range, next_range}
use servos.Vmm.Copy.{iter_phys}
use servos.Vmm.Copy.Enough.{IsLow, Next, ends, fails, yields, next_range-Next}
use servos.Fs.Result.{FsError, bad_va, FsResult, ok, err, panic}
use servos.Fs.Fd.User.{Access, rw_loop, rw_va}

-- An answer to a request for `n` bytes: an error, or a count that is not larger.
pub data Answers (n : ℕ) : FsResult ℕ → Type 0 where
  refuses : (e : FsError) → Answers n (err e)
  counts : (c : ℕ) → c ≤ n → Answers n (ok c)

true-false : true ≢ false
true-false h = ground arith

choose :
    (n : ℕ) (b : Bool) (x y : FsResult ℕ × Memory)
    → Answers n x.0
    → (b ≡ false → Answers n y.0)
    → Answers n (let z : FsResult ℕ × Memory = (if b then x else y) in z.0)
choose n true x y p q = p
choose n false x y p q = q refl

module _ (pt : ℕ) (f : Access) where
  -- the body of the loop, behind the call
  abbrev pub after_call : ℕ → ℕ → ℕ → Range → PhysIter → FsResult ℕ × Memory → FsResult ℕ × Memory
  after_call fuel pos total r it' x = elim x.0 [
    | err e ↦ (err e, x.1)
    | panic ↦ (panic, x.1)
    | ok count ↦
        let rest = rw_loop fuel pt f (pos + count) (total + count) it' x.1 in
        if ltb count r.len
        then (ok (total + count), x.1)
        else if ltb (pos + count) (2 ^ 64)
        then rest
        else (panic, x.1)
  ]

  -- the body of the loop
  abbrev pub after_next : ℕ → ℕ → ℕ → Memory → Outcome (Item × PhysIter) → FsResult ℕ × Memory
  after_next fuel pos total m x = elim x [
    | panic ↦ (panic, m)
    | done (finished, it') ↦ (ok total, m)
    | done (bad_addr, it') ↦ (err bad_va, m)
    | done (range r, it') ↦ after_call fuel pos total r it' (f pos r m)
  ]

module _ (pt : ℕ) (f : Access)
    (answers : (pos : ℕ) (r : Range) (m : Memory) → Answers r.len (f pos r m).0) where
  Later : ℕ → Type 0
  Later fuel =
      (pos total : ℕ) (it : PhysIter) (m : Memory)
      → it.size < fuel
      → IsLow it
      → pos + it.size < 2 ^ 64
      → Answers (total + it.size) (rw_loop fuel pt f pos total it m).0

  counted :
      (fuel pos total size : ℕ) (r : Range) (it' : PhysIter) (x : FsResult ℕ × Memory)
      → Later fuel
      → Answers r.len x.0
      → 0 < r.len
      → r.len + it'.size ≡ size
      → it'.size < fuel
      → IsLow it'
      → pos + size < 2 ^ 64
      → Answers (total + size) (after_call pt f fuel pos total r it' x).0
  unfolding Later
  counted fuel pos total size r it' (err e, m) ih (refuses e') l s g low h = refuses e
  counted fuel pos total size r it' (panic, m) ih q l s g low h = elim q [ ]
  counted fuel pos total size r it' (ok count, m) ih (counts c' a) l s g low h =
      choose (total + size) (ltb count r.len) (ok (total + count), m) _
        (counts (total + count) (omega arith))
        (λ e.
          let whole : count ≡ r.len = ground arith in
          let sum : total + count + it'.size ≡ total + size = omega arith in
          choose (total + size) (ltb (pos + count) (2 ^ 64))
            (rw_loop fuel pt f (pos + count) (total + count) it' m) (panic, m)
            (subst (λ n. Answers n (rw_loop fuel pt f (pos + count) (total + count) it' m).0) sum
              (ih (pos + count) (total + count) it' m g low (omega arith)))
            (λ e'. absurd (true-false (sym (lt→ltb (pos + count) (2 ^ 64) (omega arith)) ∙ e'))))

  stepped :
      (fuel pos total : ℕ) (it : PhysIter) (m : Memory)
      → Later fuel
      → (x : Outcome (Item × PhysIter)) → Next it x
      → it.size < suc fuel
      → pos + it.size < 2 ^ 64
      → Answers (total + it.size) (after_next pt f fuel pos total m x).0
  stepped fuel pos total it m ih x (ends e) g h = counts total (omega arith)
  stepped fuel pos total it m ih x fails g h = refuses bad_va
  stepped fuel pos total it m ih x (yields start n it' l s low) g h =
      let r : Range = record { start = start; len = n } in
      counted fuel pos total it.size r it' (f pos r m) ih (answers pos r m) l s (omega arith) low h

  rw_loop-Answers : (fuel : ℕ) → Later fuel
  unfolding rw_loop Later
  rw_loop-Answers zero = λ pos total it m g low h. absurd (omega arith)
  rw_loop-Answers (suc fuel) = λ pos total it m g low h.
      stepped fuel pos total it m (rw_loop-Answers fuel) (next_range pt it m)
        (next_range-Next pt it m low) g h

  -- A transfer of `len` bytes at a position whose end is a 64-bit number, from or to user memory that
  -- stays below the top page of the address space, ends without a panic, with an error or a count
  -- that is not larger than `len`, if each call of the file system does.
  pub rw_va-Answers :
      (pos buf len perms : ℕ) (m : Memory)
      → buf + len + page_size < 2 ^ 64
      → pos + len < 2 ^ 64
      → Answers len (rw_va pos pt buf len perms f m).0
  unfolding rw_va Later iter_phys
  rw_va-Answers pos buf len perms m low h =
      let same : 0 + len ≡ len = omega arith in
      subst (λ n. Answers n (rw_va pos pt buf len perms f m).0) same
        (rw_loop-Answers (suc len) pos 0 (iter_phys buf len perms) m (omega arith) (inr low) h)
