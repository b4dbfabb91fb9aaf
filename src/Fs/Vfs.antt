-- ===== src/Fs/Vfs.antt =====
-- `Vfs` of kernel/src/fs/vfs.rs: the mount table, a `BTreeMap` from paths to file systems, which is
-- here the list of its entries in the order of the keys. The keys are compared by their bytes,
-- as the derived order of `OwnedPath` does.
pub mod Sorted
pub mod Resolve
pub mod Unmount
mod Tests
use servos.Prelude.{
  ℕ, Bool, true, false, Option, none, some, List, [], ◌∷◌, ltb, ◌==◌, if◌then◌else◌,
}
use servos.Fs.Result.{FsError, path_not_found, FsResult, ok, err, panic, VNode, ◌>>=◌}
use servos.Fs.Path.{Bytes, bytes_eq, strip_prefix}

abbrev pub Mounts {ℓ} : Type ℓ → Type ℓ
Mounts A = List (Bytes × A)

-- the order of byte slices
unfoldable pub bytes_lt : Bytes → Bytes → Bool
bytes_lt [] [] = false
bytes_lt [] (y ∷ ys) = true
bytes_lt (x ∷ xs) [] = false
bytes_lt (x ∷ xs) (y ∷ ys) =
    let rest = bytes_lt xs ys in if ltb x y then true else if x == y then rest else false

module _ {ℓ} {A : Type ℓ} where
  -- Vfs::mount; `none` is `AlreadyMounted`
  unfoldable pub mount : Bytes → A → Mounts A → Option (Mounts A)
  mount path fs [] = some ((path, fs) ∷ [])
  mount path fs ((q, g) ∷ m) =
      let rest = mount path fs m in
      if bytes_eq path q
      then none
      else if bytes_lt path q
      then some ((path, fs) ∷ ((q, g) ∷ m))
      else elim rest [ none ↦ none | some m' ↦ some ((q, g) ∷ m') ]

  -- `iter().rev().find_map(…)` of `open`: the last entry that is a prefix, and the rest of the path
  unfoldable pub resolve : Bytes → Mounts A → Option (A × Bytes)
  resolve path [] = none
  resolve path ((q, g) ∷ m) = elim (resolve path m) [
    | none ↦ elim (strip_prefix path q) [ none ↦ none | some rest ↦ some (g, rest) ]
    | some found ↦ some found
  ]

  -- Vfs::open, with `dev_open` the `open` of a mounted file system and no vnode to start from
  unfoldable pub open_at : (A → Bytes → FsResult VNode) → Bytes → Mounts A → FsResult (A × VNode)
  open_at dev_open path m = elim (resolve path m) [
    | none ↦ err path_not_found
    | some (dev, rest) ↦ dev_open dev rest >>= λ vn. ok (dev, vn)
  ]
