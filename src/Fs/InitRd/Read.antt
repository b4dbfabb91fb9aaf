-- ===== src/Fs/InitRd/Read.antt =====
-- `InitRd::read` against the contents of a file.
use servos.Prelude.{
  ℕ, zero, suc, ◌+◌, ◌-◌, ◌^◌, ◌<◌, ◌≤◌, ◌≡◌, ◌⊎◌, inl, inr, refl, ap, sym, ◌∙◌, true, false, none,
  some, List, [], ◌∷◌, ◌++◌, length, get_elem?, take, drop, if◌then◌else◌, ◌==◌, leb, min,
  length-take, length-drop, Bool-cases, arith,
}
use servos.Fs.Result.{FsError, eof, invalid_op, FsResult, ok, err, VNode, ◌>>=◌}
use servos.Fs.Path.{Bytes}
use servos.Fs.InitRd.{InitRd, INode, inode_dir, vnode_to_inode, data_slice, read}

module _ {ℓ} {A : Type ℓ} where
  abbrev the_nil : List A
  the_nil = []

  drop-nil : (k : ℕ) → drop k (the_nil) ≡ []
  drop-nil zero = refl
  drop-nil (suc k) = refl

  pub take-nil : (k : ℕ) → take k the_nil ≡ []
  take-nil zero = refl
  take-nil (suc k) = refl

  pub drop-all : (k : ℕ) (xs : List A) → length xs ≤ k → drop k xs ≡ []
  drop-all k [] h = drop-nil k
  drop-all zero (x ∷ xs) h = absurd (omega arith)
  drop-all (suc k) (x ∷ xs) h = drop-all k xs (omega arith)

  pub drop-drop : (m n : ℕ) (xs : List A) → drop n (drop m xs) ≡ drop (m + n) xs
  drop-drop zero n xs = ap (λ k. drop k xs) (omega arith)
  drop-drop (suc m) n [] = drop-nil n ∙ sym (drop-nil (suc m + n))
  drop-drop (suc m) n (x ∷ xs) =
      let e : suc (m + n) ≡ suc m + n = omega arith in
      drop-drop m n xs ∙ ap (λ k. drop k (x ∷ xs)) e

  -- a slice within the first `s` elements
  take-drop-take :
      (k p s : ℕ) (xs : List A) → k ≤ s - p → take k (drop p (take s xs)) ≡ take k (drop p xs)
  take-drop-take zero p s xs h = refl
  take-drop-take (suc k) p zero xs h = absurd (omega arith)
  take-drop-take (suc k) zero (suc s) [] h = refl
  take-drop-take (suc k) zero (suc s) (x ∷ xs) h =
      ap (λ l. x ∷ l) (take-drop-take k 0 s xs (omega arith))
  take-drop-take (suc k) (suc p) (suc s) [] h = refl
  take-drop-take (suc k) (suc p) (suc s) (x ∷ xs) h = take-drop-take (suc k) p s xs (omega arith)

  pub take-min : (n : ℕ) (xs : List A) → take (min n (length xs)) xs ≡ take n xs
  take-min zero xs = let e : min 0 (length xs) ≡ 0 = omega arith in ap (λ k. take k xs) e
  take-min (suc n) [] = let e : min (suc n) 0 ≡ 0 = omega arith in ap (λ k. take k the_nil) e
  take-min (suc n) (x ∷ xs) =
      let e : min (suc n) (suc (length xs)) ≡ suc (min n (length xs)) = omega arith in
      ap (λ k. take k (x ∷ xs)) e ∙ ap (λ l. x ∷ l) (take-min n xs)

  pub take-add :
      (n s : ℕ) (xs : List A) → take n xs ++ take s (drop (length (take n xs)) xs) ≡ take (n + s) xs
  take-add zero s xs = ap (λ k. take k xs) (omega arith)
  take-add (suc n) s [] = take-nil s ∙ sym (take-nil (suc n + s))
  take-add (suc n) s (x ∷ xs) =
      let e : suc (n + s) ≡ suc n + s = omega arith in
      ap (λ l. x ∷ l) (take-add n s xs) ∙ ap (λ k. take k (x ∷ xs)) e

-- The contents of an inode's file.
unfoldable pub contents : InitRd → INode → Bytes
contents fs n = take n.size (drop n.addr fs.data_bytes)

-- `n` is a file within the image.
pub record IsFile (fs : InitRd) (vn : VNode) (n : INode) : Type 0 where
  pub at : get_elem? fs.inodes vn.ino ≡ some n
  pub no_dir : (n.typ == inode_dir) ≡ false
  pub inside : n.addr + n.size ≤ length fs.data_bytes
  pub fits : n.addr + n.size < 2 ^ 64

module _ (fs : InitRd) (vn : VNode) (n : INode) (f : IsFile fs vn n) where
  vnode_to_inode-at : vnode_to_inode fs vn ≡ ok n
  unfolding vnode_to_inode
  vnode_to_inode-at = ap (λ o. elim o [ none ↦ err FsError.corrupted_fs | some m ↦ ok m ]) f.at

  pub length-contents : length (contents fs n) ≡ n.size
  unfolding contents
  length-contents =
      let h = f.inside in
      omega
        (arith, length-take n.size (drop n.addr fs.data_bytes), length-drop n.addr fs.data_bytes)

  slice-contents :
      (pos k : ℕ)
      → k ≤ n.size - pos
      → take k (drop (n.addr + pos) fs.data_bytes) ≡ take k (drop pos (contents fs n))
  unfolding contents
  slice-contents pos k h =
      ap (take k) (sym (drop-drop n.addr pos fs.data_bytes))
      ∙ sym (take-drop-take k pos n.size (drop n.addr fs.data_bytes) h)

  data_slice-ok :
      (start len : ℕ)
      → start < 2 ^ 64
      → start + len ≤ length fs.data_bytes
      → data_slice fs start len ≡ ok (take len (drop start fs.data_bytes))
  unfolding data_slice
  data_slice-ok start len h g = ground arith

  -- From a file of the image, a read at a position behind the end answers with end-of-file, and any
  -- other read with the bytes of the file from that position on, as many as the buffer holds.
  pub read-contents :
      (pos buf : ℕ)
      → ((n.size ≤ pos) × (read fs vn pos buf ≡ err eof))
        ⊎ ((pos < n.size) × (read fs vn pos buf ≡ ok (take buf (drop pos (contents fs n)))))
  unfolding read
  read-contents pos buf = elim (Bool-cases (leb n.size pos)) [
    | inl e ↦ inl (ground arith, ap (λ r. r >>= after) vnode_to_inode-at ∙ at_end e)
    | inr e ↦ inr (
      ground arith,
      ap (λ r. r >>= after) vnode_to_inode-at
          ∙ (in_file e
              ∙ (data_slice-ok (n.addr + pos) (min buf (n.size - pos)) (starts e) (stops e)
                  ∙ ap ok (
                      slice-contents pos (min buf (n.size - pos)) (omega arith)
                      ∙ (ap (λ k. take (min buf k) (drop pos (contents fs n))) rest
                          ∙ take-min buf (drop pos (contents fs n)))))),
    )
  ]
    where
      after : INode → FsResult Bytes
      after m =
          if m.typ == inode_dir
          then err invalid_op
          else if leb m.size pos
          then err eof
          else data_slice fs (m.addr + pos) (min buf (m.size - pos))

      at_end : leb n.size pos ≡ true → after n ≡ err eof
      at_end e = let d = f.no_dir in ground arith

      in_file :
          leb n.size pos ≡ false → after n ≡ data_slice fs (n.addr + pos) (min buf (n.size - pos))
      in_file e = let d = f.no_dir in ground arith

      starts : leb n.size pos ≡ false → n.addr + pos < 2 ^ 64
      starts e = let h = f.fits in ground arith

      stops : leb n.size pos ≡ false → n.addr + pos + min buf (n.size - pos) ≤ length fs.data_bytes
      stops e = let h = f.inside in ground arith

      rest : n.size - pos ≡ length (drop pos (contents fs n))
      rest = omega (arith, length-drop pos (contents fs n), length-contents)
