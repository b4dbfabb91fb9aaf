-- ===== src/Fs/Fd/Pages.antt =====
-- What rw_va of kernel/src/fs/mod.rs makes of a file that ends in the first page of the user's buffer, and
-- of one that ends with it.
use servos.Prelude.{
  ℕ, zero, suc, ◌+◌, ◌-◌, ◌^◌, ◌<◌, ◌≤◌, ◌≡◌, inl, inr, refl, ap, ◌∙◌, min, ltb, false, some, [],
  ◌∷◌, length, take, if◌then◌else◌, bit_or, lt→ltb, arith,
}
use servos.Prelude.Outcome.{done}
use servos.Vmm.Vaddr.{page_size, page_number, page_offset}
use servos.Vmm.Vaddr.Fields.{page_offset-mod, page_number-div}
use servos.Vmm.Memory.{Memory}
use servos.Vmm.Pte.Flag
use servos.Vmm.Translate.{Range, PhysIter, range, next_range, to_phys, to_phys_walk}
use servos.Vmm.Copy.{iter_phys, write_bytes}
use servos.Vmm.Copy.Enough.{chunk, advanced, next_range-yield}
use servos.Fs.Path.{Bytes}
use servos.Fs.Result.{FsError, eof, invalid_op, FsResult, ok, err, VNode, ◌>>=◌}
use servos.Fs.Fd.{FileSystem, Fd, u64_max, moved, advance}
use servos.Fs.Fd.Reads.{Shows}
use servos.Fs.Fd.Count.{after_call, after_next}
use servos.Fs.Fd.User.{Access, rw_loop, rw_va, read_access, dev_read_va, exec_va, read_va}

rw_loop-range :
    (fuel pt : ℕ) (f : Access) (pos total count : ℕ) (it it' : PhysIter) (m m' : Memory) (r : Range)
    → next_range pt it m ≡ done (range r, it')
    → f pos r m ≡ (ok count, m')
    → rw_loop (suc fuel) pt f pos total it m ≡ (
        if ltb count r.len
        then (ok (total + count), m')
        else if ltb (pos + count) (2 ^ 64)
        then rw_loop fuel pt f (pos + count) (total + count) it' m'
        else (FsResult.panic, m'))
unfolding rw_loop
rw_loop-range fuel pt f pos total count it it' m m' r e g =
    ap (after_next pt f fuel pos total m) e ∙ ap (after_call pt f fuel pos total r it') g

rw_loop-err :
    (fuel pt : ℕ) (f : Access) (pos total : ℕ) (it it' : PhysIter) (m m' : Memory) (r : Range)
    (x : FsError)
    → next_range pt it m ≡ done (range r, it')
    → f pos r m ≡ (err x, m')
    → rw_loop (suc fuel) pt f pos total it m ≡ (err x, m')
unfolding rw_loop
rw_loop-err fuel pt f pos total it it' m m' r x e g =
    ap (after_next pt f fuel pos total m) e ∙ ap (after_call pt f fuel pos total r it') g

rw_loop-fails :
    (fuel pt : ℕ) (f : Access) (pos total : ℕ) (it it' : PhysIter) (m m' : Memory) (r : Range)
    (x : FsError)
    → 0 < fuel
    → next_range pt it m ≡ done (range r, it')
    → f pos r m ≡ (err x, m')
    → rw_loop fuel pt f pos total it m ≡ (err x, m')
rw_loop-fails zero pt f pos total it it' m m' r x h e g = absurd (omega arith)
rw_loop-fails (suc fuel) pt f pos total it it' m m' r x h e g =
    rw_loop-err fuel pt f pos total it it' m m' r x e g

ge→ltb : (a b : ℕ) → b ≤ a → ltb a b ≡ false
ge→ltb a b h = ground arith

-- the permissions that a read into user memory asks for
abbrev pub writable : ℕ
writable = bit_or Flag.u Flag.w

-- how many bytes there are from an address to the end of its page
abbrev pub page_rest : ℕ → ℕ
page_rest va = page_size - page_offset va

take-all : (n : ℕ) (xs : Bytes) → length xs ≤ n → take n xs ≡ xs
take-all zero [] h = refl
take-all zero (x ∷ xs) h = absurd (omega arith)
take-all (suc n) [] h = refl
take-all (suc n) (x ∷ xs) h = ap (λ l. x ∷ l) (take-all n xs (omega arith))

-- A write to memory changes no translation.
pub to_phys-write_bytes :
    (pt va req start : ℕ) (bs : Bytes) (m : Memory)
    → to_phys pt va req (write_bytes start bs m) ≡ to_phys pt va req m
unfolding to_phys to_phys_walk write_bytes
to_phys-write_bytes pt va req start bs m = refl

-- what the closure of read_va makes of the answer of a file system
abbrev stored : ℕ → Memory → FsResult Bytes → FsResult ℕ × Memory
stored start m x = elim x [
  | ok bs ↦ (ok (length bs), write_bytes start bs m)
  | err e ↦ (err e, m)
  | FsResult.panic ↦ (FsResult.panic, m)
]

module _ (dev : FileSystem) (vn : VNode) (file : Bytes) (shows : Shows dev vn file) (pt buf len : ℕ)
    (m : Memory) (p : ℕ) (some_len : 0 < len) (low : buf + len + page_size < 2 ^ 64)
    (mapped : to_phys pt buf writable m ≡ some p) where
  first :
      next_range pt (iter_phys buf len writable) m
      ≡ done (
        range (record { start = p; len = min (page_rest buf) len }),
        advanced (iter_phys buf len writable),
      )
  unfolding iter_phys
  first =
      next_range-yield pt (iter_phys buf len writable) m p (λ e. omega arith) (omega arith) mapped

  -- behind the end of the file
  pub dev_read_va-end :
      (pos : ℕ) → length file ≤ pos → dev_read_va dev vn pos pt buf len m ≡ (err eof, m)
  unfolding dev_read_va rw_va read_access
  dev_read_va-end pos h = elim (shows pos (min (page_rest buf) len)) [
    | inl (le, e) ↦
        rw_loop-err len pt (read_access dev vn) pos 0 _ _ m m _ eof first (ap (stored p m) e)
    | inr (lt, e) ↦ absurd (omega arith)
  ]

  read_first :
      0 < length file
      → length file ≤ min (page_rest buf) len
      → read_access dev vn 0 (record { start = p; len = min (page_rest buf) len }) m
        ≡ (ok (length file), write_bytes p file m)
  unfolding read_access
  read_first h g = elim (shows 0 (min (page_rest buf) len)) [
    | inl (le, e) ↦ absurd (omega arith)
    | inr (lt, e) ↦
        ap (stored p m) e
        ∙ ap (λ bs. (ok (length bs), write_bytes p bs m))
            (take-all (min (page_rest buf) len) file g)
  ]

  -- A file that ends before the first page of the buffer does.
  pub dev_read_va-short :
      0 < length file
      → length file < min (page_rest buf) len
      → dev_read_va dev vn 0 pt buf len m ≡ (ok (length file), write_bytes p file m)
  unfolding dev_read_va rw_va
  dev_read_va-short h g =
      rw_loop-range len pt (read_access dev vn) 0 0 (length file) _ _ m (write_bytes p file m) _
        first (read_first h (omega arith))
      ∙ ap (λ b. if b then (ok (0 + length file), write_bytes p file m) else later)
          (lt→ltb (length file) (min (page_rest buf) len) g)
      ∙ ap (λ n. (ok n, write_bytes p file m)) (omega arith)
    where
      later : FsResult ℕ × Memory
      later =
          if ltb (0 + length file) (2 ^ 64)
          then rw_loop len pt (read_access dev vn) (0 + length file) (0 + length file)
              (advanced (iter_phys buf len writable)) (write_bytes p file m)
          else (FsResult.panic, write_bytes p file m)

  -- A file that ends with the first page of the buffer is read, and then the read fails: the loop asks
  -- the file system for the bytes of the next page, which are behind the end of the file.
  pub dev_read_va-boundary :
      (q : ℕ)
      → 0 < length file
      → length file ≡ page_rest buf
      → page_rest buf < len
      → to_phys pt (page_number (buf + page_size)) writable m ≡ some q
      → dev_read_va dev vn 0 pt buf len m ≡ (err eof, write_bytes p file m)
  unfolding dev_read_va rw_va
  dev_read_va-boundary q h g l mapped' =
      let it = advanced (iter_phys buf len writable) in
      let m' = write_bytes p file m in
      let pos : ℕ = 0 + length file in
      let n = chunk it in
      let start : Range = record { start = q; len = n } in
      let o = page_offset-mod buf in
      let aligned = page_number-div (buf + page_size) (omega arith) in
      let second : next_range pt it m' ≡ done (range start, advanced it) =
        next_range-yield pt it m' q (λ e. unfold iter_phys in omega (arith, e))
          (unfold iter_phys in omega (arith, aligned))
          (unfold iter_phys in
            to_phys-write_bytes pt (page_number (buf + page_size)) writable p file m ∙ mapped') in
      let behind : read_access dev vn pos start m' ≡ (err eof, m') = elim (shows pos n) [
        | inl (le, e) ↦ unfold read_access in ap (stored q m') e
        | inr (lt, e) ↦ absurd (omega arith)
      ] in
      let rest =
        rw_loop-fails len pt (read_access dev vn) pos pos it (advanced it) m' m' start eof
          (omega arith) second behind in
      rw_loop-range len pt (read_access dev vn) 0 0 (length file) _ _ m m' _ first
        (read_first h (omega arith))
      ∙ (ap
            (λ b.
              if b
              then (ok pos, m')
              else if ltb pos (2 ^ 64)
              then rw_loop len pt (read_access dev vn) pos pos it m'
              else (FsResult.panic, m'))
            (ge→ltb (length file) (min (page_rest buf) len) (omega arith))
          ∙ (ap
                (λ b.
                  if b
                  then rw_loop len pt (read_access dev vn) pos pos it m'
                  else (FsResult.panic, m'))
                (lt→ltb pos (2 ^ 64) (omega arith))
              ∙ rest))

-- the descriptor after a call at its own position
module _ (fd : Fd) (pt va len : ℕ) (m m' : Memory) (file : fd.node.directory ≡ false) where
  after_move : FsResult ℕ × Memory → (FsResult ℕ × Fd) × Memory
  after_move y =
      let (r, fd') = moved {0} fd (y.0 >>= λ n. ok (n, tt)) in ((r >>= λ v. ok v.0, fd'), y.1)

  of_file :
      read_va fd u64_max pt va len m ≡ after_move (dev_read_va fd.dev fd.node fd.pos pt va len m)
  unfolding read_va exec_va after_move
  of_file =
      ap
        (λ b.
          if b
          then ((err invalid_op, fd), m)
          else after_move (dev_read_va fd.dev fd.node fd.pos pt va len m))
        file

  pub read_va-err :
      (x : FsError)
      → dev_read_va fd.dev fd.node fd.pos pt va len m ≡ (err x, m')
      → read_va fd u64_max pt va len m ≡ ((err x, fd), m')
  unfolding after_move moved
  read_va-err x e = of_file ∙ ap after_move e

  pub read_va-ok :
      (c : ℕ)
      → fd.pos + c < 2 ^ 64
      → dev_read_va fd.dev fd.node fd.pos pt va len m ≡ (ok c, m')
      → read_va fd u64_max pt va len m ≡ ((ok c, record fd { pos = fd.pos + c }), m')
  unfolding after_move moved advance
  read_va-ok c lt e =
      of_file
      ∙ (ap after_move e
          ∙ ap
              (λ b.
                kept (
                  if b then (ok (c, tt), record fd { pos = fd.pos + c }) else (FsResult.panic, fd)))
              (lt→ltb (fd.pos + c) (2 ^ 64) lt))
    where
      kept : FsResult (ℕ × Unit {0}) × Fd → (FsResult ℕ × Fd) × Memory
      kept x = ((x.0 >>= λ v. ok v.0, x.1), m')
