-- ===== src/Fs/InitRd/Safe.antt =====
-- `InitRd::open` on an image whose directories are in bounds.
use servos.Prelude.{
  if◌then◌else◌, ℕ, zero, suc, ◌+◌, ◌*◌, ◌^◌, ◌<◌, ◌≡◌, ◌⊎◌, inl, inr, refl, ap, ◌∙◌, Bool, true,
  false, Option, none, some, List, [], ◌∷◌, length, get_elem?, take, drop, ◌==◌, ltb, leb,
  Option-cases, Bool-cases, arith,
}
use servos.Fs.Result.{FsError, path_not_found, corrupted_fs, FsResult, ok, err, VNode, ◌>>=◌}
use servos.Fs.Path.{Bytes, components, names}
use servos.Fs.InitRd.{
  InitRd, INode, inode_dir, name_eq, from_le_bytes, dir_entry, scan, walk, enter_dir, vnode,
  first_ino, open_path,
}
use servos.Fs.InitRd.Open.{vnode-some, bind_ext}

-- The inode `n` has the number `i`.
abbrev pub HasInode : InitRd → ℕ → INode → Type 0
HasInode fs i n = get_elem? fs.inodes i ≡ some n

-- There is a root, and no entry of a directory has an address beyond the machine's words.
pub record IsWellFormed (fs : InitRd) : Type 0 where
  pub top : INode
  pub has_top : HasInode fs 0 top
  pub entries_fit : (i : ℕ) (n : INode) → HasInode fs i n → n.addr + n.size * 8 < 2 ^ 64

-- an error, or the number of an inode
abbrev pub Answers : InitRd → FsResult ℕ → Type 0
Answers fs r =
    ((e : FsError) × (r ≡ err e)) ⊎ ((j : ℕ) × (n : INode) × (r ≡ ok j) × HasInode fs j n)

module _ (fs : InitRd) (w : IsWellFormed fs) where
  dir_entry-cases :
      (i : ℕ) (d : INode) (pos : ℕ)
      → HasInode fs i d
      → (dir_entry fs d pos ≡ ok none)
        ⊎ ((e : ℕ) × (n : INode) × (dir_entry fs d pos ≡ ok (some (e, n))) × HasInode fs e n)
  unfolding dir_entry
  dir_entry-cases i d pos h =
      let fit = w.entries_fit i d h in
      elim (Bool-cases (leb d.size pos)) [
        | inl e ↦ inl (ground arith)
        | inr e ↦ elim (Bool-cases (ltb (length fs.data_bytes) (d.addr + pos * 8 + 8))) [
          | inl q ↦ inl (ground arith)
          | inr q ↦
              elim (Option-cases (
                get_elem? fs.inodes
                  (from_le_bytes (take 8 (drop (d.addr + pos * 8) fs.data_bytes))))) [
                    | inl g ↦ inl (ground arith)
                    | inr (n, g) ↦ inr (
                      from_le_bytes (take 8 (drop (d.addr + pos * 8) fs.data_bytes)),
                      n,
                      ground arith,
                      g,
                    )
                  ]
        ]
      ]

  abbrev on_entry : INode → Bytes → ℕ → ℕ → Option (ℕ × INode) → FsResult ℕ
  on_entry d name k n none = err corrupted_fs
  on_entry d name k n (some (entry_no, inode)) =
      if name_eq inode name then ok entry_no else scan fs d name (k + 1) n

  scan-step :
      (d : INode) (name : Bytes) (k n : ℕ)
      → scan fs d name k (suc n) ≡ (dir_entry fs d k >>= on_entry d name k n)
  unfolding scan
  scan-step d name k n = bind_ext (dir_entry fs d k) by_entry
    where
      by_entry :
          (o : Option (ℕ × INode))
          → elim o [
            | none ↦ err corrupted_fs
            | some (e, inode) ↦
                let rest = scan fs d name (k + 1) n in if name_eq inode name then ok e else rest
          ]
            ≡ on_entry d name k n o
      by_entry none = refl
      by_entry (some (e, inode)) = refl

  scan-Answers :
      (i : ℕ) (d : INode) (name : Bytes) (k n : ℕ)
      → HasInode fs i d
      → Answers fs (scan fs d name k n)
  scan-Answers i d name k zero h = inl (path_not_found, unfold scan in refl)
  scan-Answers i d name k (suc n) h =
      let ih = scan-Answers i d name (k + 1) n h in
      elim (dir_entry-cases i d k h) [
        | inl e ↦ inl (corrupted_fs, scan-step d name k n ∙ ap (λ r. r >>= on_entry d name k n) e)
        | inr (j, inode, e, g) ↦
            chosen ih j inode (name_eq inode name) g
              (scan-step d name k n ∙ ap (λ r. r >>= on_entry d name k n) e)
      ]
    where
      chosen :
          Answers fs (scan fs d name (k + 1) n)
          → (j : ℕ) (inode : INode) (b : Bool) → HasInode fs j inode
          → scan fs d name k (suc n) ≡ (if b then ok j else scan fs d name (k + 1) n)
          → Answers fs (scan fs d name k (suc n))
      chosen ih j inode true g e = inr (j, inode, e, g)
      chosen (inl (x, e')) j inode false g e = inl (x, e ∙ e')
      chosen (inr (x, m, e', g')) j inode false g e = inr (x, m, e ∙ e', g')

  enter_dir-Answers :
      (i : ℕ) (n : INode) (name : Bytes) → HasInode fs i n → Answers fs (enter_dir fs i name)
  unfolding enter_dir
  enter_dir-Answers i n name h = elim (Bool-cases (n.typ == inode_dir)) [
    | inl e ↦ go (the_scan h e) (scan-Answers i n name 0 n.size h)
    | inr e ↦ inl (path_not_found, ground arith)
  ]
    where
      the_scan :
          HasInode fs i n
          → (n.typ == inode_dir) ≡ true
          → enter_dir fs i name ≡ scan fs n name 0 n.size
      the_scan h e = ground arith

      go :
          enter_dir fs i name ≡ scan fs n name 0 n.size
          → Answers fs (scan fs n name 0 n.size)
          → Answers fs (enter_dir fs i name)
      go e (inl (x, e')) = inl (x, e ∙ e')
      go e (inr (j, m, e', g)) = inr (j, m, e ∙ e', g)

  walk-Answers :
      (i : ℕ) (n : INode) (names : List Bytes) → HasInode fs i n → Answers fs (walk fs i names)
  unfolding walk
  walk-Answers i n [] h = inr (i, n, refl, h)
  walk-Answers i n (name ∷ rest) h = elim (enter_dir-Answers i n name h) [
    | inl (x, e) ↦ inl (x, ap (λ r. r >>= λ next. walk fs next rest) e)
    | inr (j, m, e, g) ↦
        go j (ap (λ r. r >>= λ next. walk fs next rest) e) (walk-Answers j m rest g)
  ]
    where
      go :
          (j : ℕ)
          → walk fs i (name ∷ rest) ≡ walk fs j rest
          → Answers fs (walk fs j rest)
          → Answers fs (walk fs i (name ∷ rest))
      go j e (inl (x, e')) = inl (x, e ∙ e')
      go j e (inr (k, m, e', g)) = inr (k, m, e ∙ e', g)

  -- On a well-formed image, from the root or from a vnode whose inode exists, `open` does not panic:
  -- it answers with an error, or with a vnode whose inode exists, which is read-only, and which is
  -- marked as a directory exactly when its inode's type says so.
  pub open_path-answers :
      (path : Bytes) (root : Option VNode) (at : INode)
      → HasInode fs (first_ino path root) at
      → ((e : FsError) × (open_path fs path root ≡ err e))
        ⊎ ((vn : VNode) × (n : INode) × (open_path fs path root ≡ ok vn)
            × HasInode fs vn.ino n
            × (vn.directory ≡ (n.typ == inode_dir))
            × (vn.readonly ≡ true))
  unfolding open_path
  open_path-answers path root at h =
      elim (walk-Answers (first_ino path root) at (names (components path)) h) [
        | inl (x, e) ↦ inl (x, ap (λ r. r >>= λ ino. vnode fs ino) e)
        | inr (j, m, e, g) ↦ inr (
          record { ino = j; directory = m.typ == inode_dir; readonly = true },
          m,
          ap (λ r. r >>= λ ino. vnode fs ino) e ∙ vnode-some fs j m g,
          g,
          refl,
          refl,
        )
      ]
