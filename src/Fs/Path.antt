-- ===== src/Fs/Path.antt =====
-- kernel/src/fs/path.rs. A path is its bytes. A component is a slice of the path: the position of
-- its first byte, which the source reads off the slice's pointer, and its bytes.
pub mod Split
pub mod Strip
pub mod Prefix
pub mod Order
mod Tests
use servos.Prelude.{
  ℕ, ◌+◌, ◌-◌, Bool, true, false, ◌&&◌, Option, none, some, List, [], ◌∷◌, map, length, take, drop,
  ◌==◌, if◌then◌else◌, not,
}

abbrev pub Bytes : Type 0
Bytes = List ℕ

pub record Component : Type 0 where
  pub start : ℕ
  pub bytes : Bytes

-- the position behind the last byte
abbrev pub stop : Component → ℕ
stop c = c.start + length c.bytes

-- `slice == slice`
unfoldable pub bytes_eq : Bytes → Bytes → Bool
bytes_eq [] [] = true
bytes_eq [] (y ∷ ys) = false
bytes_eq (x ∷ xs) [] = false
bytes_eq (x ∷ xs) (y ∷ ys) = x == y && bytes_eq xs ys

-- a byte that is no separator belongs to the first slice of what follows
abbrev pub extend : ℕ → ℕ → List Component → List Component
extend i c [] = []
extend i c (s ∷ rest) = record { start = i; bytes = c ∷ s.bytes } ∷ rest

-- `split(|&c| c == b'/')`, from position `i` on
unfoldable pub split : ℕ → Bytes → List Component
split i [] = record { start = i; bytes = [] } ∷ []
split i (c ∷ cs) =
    let rest = split (i + 1) cs in
    if c == b'/' then record { start = i; bytes = [] } ∷ rest else extend i c rest

-- `filter(|c| !c.is_empty())`
unfoldable pub non_empty : List Component → List Component
non_empty [] = []
non_empty (s ∷ rest) = elim s.bytes [ [] ↦ non_empty rest | c ∷ cs ↦ s ∷ non_empty rest ]

-- Path::components
unfoldable pub components : Bytes → List Component
components p = non_empty (split 0 p)

-- what the source compares of components
abbrev pub names : List Component → List Bytes
names cs = map (λ (c : Component). c.bytes) cs

-- iter_after
unfoldable pub iter_after : List Component → List Component → Option (List Component)
iter_after [] [] = some []
iter_after [] (y ∷ prefix) = none
iter_after (x ∷ iter) [] = some (x ∷ iter)
iter_after (x ∷ iter) (y ∷ prefix) =
    let rest = iter_after iter prefix in if bytes_eq x.bytes y.bytes then rest else none

-- Path::starts_with
unfoldable pub starts_with : Bytes → Bytes → Bool
starts_with p q = elim (iter_after (components p) (components q)) [ none ↦ false | some r ↦ true ]

-- the end of the last component, or `d`
unfoldable pub last_stop : ℕ → List Component → ℕ
last_stop d [] = d
last_stop d (c ∷ cs) = last_stop (stop c) cs

-- `slice::from_ptr_range`
abbrev pub slice : Bytes → ℕ → ℕ → Bytes
slice p i j = take (j - i) (drop i p)

-- the bytes from the first remaining component to the end of the last
unfoldable pub remaining : Bytes → List Component → Bytes
remaining p [] = []
remaining p (next ∷ rest) = slice p next.start (last_stop (stop next) rest)

-- Path::strip_prefix
unfoldable pub strip_prefix : Bytes → Bytes → Option Bytes
strip_prefix p q = elim (iter_after (components p) (components q)) [
  | none ↦ none
  | some cs ↦ some (remaining p cs)
]

-- Path::is_absolute
unfoldable pub is_absolute : Bytes → Bool
is_absolute [] = false
is_absolute (c ∷ cs) = c == b'/'

-- Path::is_empty
unfoldable pub is_empty : Bytes → Bool
is_empty p = elim (components p) [ [] ↦ true | c ∷ cs ↦ false ]

-- `components().eq(rhs.components())`
unfoldable pub components_eq : List Component → List Component → Bool
components_eq [] [] = true
components_eq [] (y ∷ ys) = false
components_eq (x ∷ xs) [] = false
components_eq (x ∷ xs) (y ∷ ys) = bytes_eq x.bytes y.bytes && components_eq xs ys

-- `self.0.first() == rhs.0.first()`
unfoldable pub same_first : Bytes → Bytes → Bool
same_first [] [] = true
same_first [] (y ∷ ys) = false
same_first (x ∷ xs) [] = false
same_first (x ∷ xs) (y ∷ ys) = x == y

-- PartialEq for Path
unfoldable pub path_eq : Bytes → Bytes → Bool
path_eq p q = if not (same_first p q) then false else components_eq (components p) (components q)
