-- ===== src/Fs/Vfs/Tests.antt =====
-- The mount table with file systems, named by numbers, at `/` and `/dev`.
use servos.Prelude.{
  ℕ, ◌≡◌, ◌≤◌, ◌⊎◌, inl, inr, refl, sym, false, none, some, [], ◌∷◌, ◌++◌, length, subst,
}
use servos.Fs.Path.{
  Bytes, names, components, split, non_empty, bytes_eq, strip_prefix, iter_after, remaining,
  last_stop,
}
use servos.Fs.Vfs.{Mounts, bytes_lt, mount, resolve}
use servos.Fs.Path.Order.{path_cmp, first_cmp, names_cmp, bytes_cmp, byte_cmp}
use servos.Fs.Vfs.Unmount.{unmount}
use servos.Fs.Vfs.Sorted.{IsSorted, Mounted, lookup, mount-cases}
use servos.Fs.Vfs.Resolve.{Has, Covers, IsCanonical, render, resolve-longest}

abbrev root : Bytes
root = b'/' ∷ []

abbrev dev : Bytes
dev = b'/' ∷ b'd' ∷ []

abbrev mounts : Mounts ℕ
mounts = (root, 0) ∷ ((dev, 1) ∷ [])

-- the path of the console
abbrev console : Bytes
console = b'/' ∷ b'd' ∷ b'/' ∷ b'c' ∷ []

finds_dev : resolve console mounts ≡ some (1, b'c' ∷ [])
unfolding resolve strip_prefix iter_after components split non_empty bytes_eq remaining last_stop
finds_dev = refl

mounts-IsSorted : IsSorted mounts
unfolding bytes_lt
mounts-IsSorted = ((refl, tt), (tt, tt))

canonical : (q : Bytes) (g : ℕ) → Has q g mounts → IsCanonical q
unfolding render components split non_empty
canonical q g (inl (e, f)) = subst IsCanonical (sym e) refl
canonical q g (inr (inl (e, f))) = subst IsCanonical (sym e) refl
canonical q g (inr (inr x)) = absurd x

mount-cases_example :
    ((mount dev 7 mounts ≡ none) × ((g : ℕ) × (lookup dev mounts ≡ some g)))
    ⊎ ((m' : Mounts ℕ) × (mount dev 7 mounts ≡ some m') × Mounted dev 7 mounts m')
mount-cases_example = mount-cases dev 7 mounts mounts-IsSorted

resolve-longest_example :
    ((resolve console mounts ≡ none)
      × ((q : Bytes) (g : ℕ) → Has q g mounts → Covers q console → ⊥))
    ⊎ ((q : Bytes) × (g : ℕ) × (rest : Bytes) × (resolve console mounts ≡ some (g, rest))
        × Has q g mounts
        × (names (components console) ≡ names (components q) ++ names (components rest))
        × ((r : Bytes) (h : ℕ)
            → Has r h mounts
            → Covers r console
            → length (names (components r)) ≤ length (names (components q))))
resolve-longest_example = resolve-longest console mounts mounts-IsSorted canonical

-- The two orders differ on /a/b and /a.b, since '.' is smaller than '/': with both mounted, the first
-- cannot be unmounted.
abbrev below : Bytes
below = b'/' ∷ b'a' ∷ b'/' ∷ b'b' ∷ []

abbrev dotted : Bytes
dotted = b'/' ∷ b'a' ∷ b'.' ∷ b'b' ∷ []

unmount-below :
    (m : Mounts ℕ) × (mount below 1 ((dotted, 2) ∷ []) ≡ some m) × (unmount below m ≡ (false, m))
unfolding mount unmount bytes_eq bytes_lt path_cmp first_cmp names_cmp bytes_cmp byte_cmp components
    split non_empty
unmount-below = ((dotted, 2) ∷ ((below, 1) ∷ []), refl, refl)
