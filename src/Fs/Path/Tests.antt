-- ===== src/Fs/Path/Tests.antt =====
-- The laws of paths at `/a//b/`, whose last component stands behind two separators.
use servos.Prelude.{◌≡◌, ◌↔◌, refl, some, [], ◌∷◌, ◌++◌}
use servos.Fs.Path.{
  Bytes, components, names, strip_prefix, split, non_empty, iter_after, bytes_eq, remaining,
  last_stop,
}
use servos.Fs.Path.Prefix.{strip_prefix-names}

abbrev long : Bytes
long = b'/' ∷ b'a' ∷ b'/' ∷ b'/' ∷ b'b' ∷ b'/' ∷ []

abbrev short : Bytes
short = b'a' ∷ b'/' ∷ []

strips : strip_prefix long short ≡ some (b'b' ∷ [])
unfolding strip_prefix iter_after components split non_empty bytes_eq remaining last_stop
strips = refl

strip_prefix-names_example :
    (names (components long) ≡ names (components short) ++ ((b'b' ∷ []) ∷ []))
    ↔ ((r : Bytes) × (strip_prefix long short ≡ some r) × (names (components r) ≡ (b'b' ∷ []) ∷ []))
strip_prefix-names_example = strip_prefix-names long short ((b'b' ∷ []) ∷ [])
