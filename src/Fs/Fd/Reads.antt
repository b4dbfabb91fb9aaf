-- ===== src/Fs/Fd/Reads.antt =====
-- Reading a file through a descriptor, piece by piece.
use servos.Prelude.{
  ℕ, ◌+◌, ◌^◌, ◌<◌, ◌≤◌, ◌≡◌, ◌⊎◌, inl, inr, refl, ap, sym, ◌∙◌, false, List, [], ◌∷◌, ◌++◌, length,
  take, drop, length-take, length-drop, arith, lt→ltb,
}
use servos.Fs.Result.{FsError, eof, FsResult, ok, err, panic, VNode, ◌>>=◌}
use servos.Fs.Path.{Bytes}
use servos.Fs.InitRd.Read.{drop-drop, take-add, take-nil, drop-all}
use servos.Fs.Fd.{Fd, FileSystem, u64_max, read, exec_with_pos_raw, moved, advance}

-- The device shows the bytes `file` under the vnode: an end-of-file behind them, and else the bytes
-- from the position on that the buffer holds.
abbrev pub Shows : FileSystem → VNode → Bytes → Type 0
Shows dev vn file =
    (pos buf : ℕ)
    → ((length file ≤ pos) × (dev.read vn pos buf ≡ err eof))
      ⊎ ((pos < length file) × (dev.read vn pos buf ≡ ok (take buf (drop pos file))))

-- what `reads` goes on with
abbrev and_then : (Fd → FsResult Bytes) → FsResult Bytes × Fd → FsResult Bytes
and_then k (ok b, fd) = k fd >>= λ rest. ok (b ++ rest)
and_then k (err FsError.eof, fd) = ok []
and_then k (err e, fd) = err e
and_then k (panic, fd) = panic

-- A client that reads at the descriptor's position with one buffer after the other, until the end
-- of the file or of the buffers, and puts the pieces together.
unfoldable pub reads : List ℕ → Fd → FsResult Bytes
reads [] fd = ok []
reads (n ∷ ns) fd = and_then (reads ns) (read fd u64_max n)

abbrev pub total : List ℕ → ℕ
total [] = 0
total (n ∷ ns) = n + total ns

module _ (dev : FileSystem) (vn : VNode) (file : Bytes) where
  abbrev pub at : ℕ → Fd
  at p = record { node = vn; dev = dev; pos = p }

  pub read-end :
      (p n : ℕ)
      → vn.directory ≡ false
      → dev.read vn p n ≡ err eof
      → read (at p) u64_max n ≡ (err eof, at p)
  unfolding read exec_with_pos_raw moved
  read-end p n d e = simp (d, e)

  pub read-piece :
      (p n : ℕ) (b : Bytes)
      → vn.directory ≡ false
      → p + length b < 2 ^ 64
      → dev.read vn p n ≡ ok b
      → read (at p) u64_max n ≡ (ok b, at (p + length b))
  unfolding read exec_with_pos_raw moved advance
  read-piece p n b d lt e = simp (d, e, lt→ltb (p + length b) (2 ^ 64) lt)

  -- Reading a file shorter than 2^64 bytes at the descriptor's position with one buffer after the
  -- other gives the bytes of the file from that position on, as many as the buffers hold together.
  pub reads-file :
      (ns : List ℕ) (p : ℕ)
      → vn.directory ≡ false
      → length file < 2 ^ 64
      → Shows dev vn file
      → reads ns (at p) ≡ ok (take (total ns) (drop p file))
  unfolding reads
  reads-file [] p d lt s = refl
  reads-file (n ∷ ns) p d lt s =
      let b = take n (drop p file) in
      let ih = reads-file ns (p + length b) d lt s in
      elim (s p n) [
        | inl (le, e) ↦
            ap (and_then (reads ns)) (read-end p n d e)
            ∙ ap ok (sym (ap (take (n + total ns)) (drop-all p file le) ∙ take-nil (n + total ns)))
        | inr (lt', e) ↦
            ap (and_then (reads ns)) (
              read-piece p n b d (omega (arith, length-take n (drop p file), length-drop p file)) e)
            ∙ (ap (λ r. r >>= λ rest. ok (b ++ rest)) ih
                ∙ ap ok (
                    ap (λ l. take n (drop p file) ++ take (total ns) l)
                      (sym (drop-drop p (length b) file))
                    ∙ take-add n (total ns) (drop p file)))
      ]
