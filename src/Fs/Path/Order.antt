-- ===== src/Fs/Path/Order.antt =====
-- The order of `Path` in kernel/src/fs/path.rs, and that it agrees with the equality.
use servos.Prelude.{
  ℕ, ◌≡◌, ◌↔◌, refl, ap, ap₂, sym, ◌∙◌, true, List, [], ◌∷◌, ltb, ◌==◌, if◌then◌else◌, ==_self,
  arith,
}
use servos.Fs.Path.{Bytes, names, components, same_first, path_eq}
use servos.Fs.Path.Prefix.{path_eq-names}

-- core::cmp::Ordering
pub data Ordering : Type 0 where
  less equal greater : Ordering

abbrev pub then_with : Ordering → Ordering → Ordering
then_with less o = less
then_with equal o = o
then_with greater o = greater

unfoldable pub byte_cmp : ℕ → ℕ → Ordering
byte_cmp a b = if ltb a b then less else if a == b then equal else greater

-- the order of slices
unfoldable pub bytes_cmp : Bytes → Bytes → Ordering
bytes_cmp [] [] = equal
bytes_cmp [] (y ∷ ys) = less
bytes_cmp (x ∷ xs) [] = greater
bytes_cmp (x ∷ xs) (y ∷ ys) = then_with (byte_cmp x y) (bytes_cmp xs ys)

-- the order of iterators over slices
unfoldable pub names_cmp : List Bytes → List Bytes → Ordering
names_cmp [] [] = equal
names_cmp [] (y ∷ ys) = less
names_cmp (x ∷ xs) [] = greater
names_cmp (x ∷ xs) (y ∷ ys) = then_with (bytes_cmp x y) (names_cmp xs ys)

-- `first` of both
unfoldable pub first_cmp : Bytes → Bytes → Ordering
first_cmp [] [] = equal
first_cmp [] (y ∷ ys) = less
first_cmp (x ∷ xs) [] = greater
first_cmp (x ∷ xs) (y ∷ ys) = byte_cmp x y

-- Ord::cmp of Path
unfoldable pub path_cmp : Bytes → Bytes → Ordering
path_cmp p q = then_with (first_cmp p q) (names_cmp (names (components p)) (names (components q)))

then_with-equal : (o o' : Ordering) → then_with o o' ≡ equal → (o ≡ equal) × (o' ≡ equal)
then_with-equal less o' e = cc
then_with-equal equal o' e = (refl, e)
then_with-equal greater o' e = cc

byte_cmp_self : (a : ℕ) → byte_cmp a a ≡ equal
unfolding byte_cmp
byte_cmp_self a = ground arith

byte_cmp-eq : (a b : ℕ) → byte_cmp a b ≡ equal → a ≡ b
unfolding byte_cmp
byte_cmp-eq a b e = grind arith

bytes_cmp_self : (a : Bytes) → bytes_cmp a a ≡ equal
unfolding bytes_cmp
bytes_cmp_self [] = refl
bytes_cmp_self (x ∷ xs) = ap₂ then_with (byte_cmp_self x) (bytes_cmp_self xs)

bytes_cmp-eq : (a b : Bytes) → bytes_cmp a b ≡ equal → a ≡ b
unfolding bytes_cmp
bytes_cmp-eq [] [] e = refl
bytes_cmp-eq [] (y ∷ ys) e = cc
bytes_cmp-eq (x ∷ xs) [] e = cc
bytes_cmp-eq (x ∷ xs) (y ∷ ys) e =
    let (h, t) = then_with-equal (byte_cmp x y) (bytes_cmp xs ys) e in
    ap₂ ◌∷◌ (byte_cmp-eq x y h) (bytes_cmp-eq xs ys t)

names_cmp_self : (a : List Bytes) → names_cmp a a ≡ equal
unfolding names_cmp
names_cmp_self [] = refl
names_cmp_self (x ∷ xs) = ap₂ then_with (bytes_cmp_self x) (names_cmp_self xs)

names_cmp-eq : (a b : List Bytes) → names_cmp a b ≡ equal → a ≡ b
unfolding names_cmp
names_cmp-eq [] [] e = refl
names_cmp-eq [] (y ∷ ys) e = cc
names_cmp-eq (x ∷ xs) [] e = cc
names_cmp-eq (x ∷ xs) (y ∷ ys) e =
    let (h, t) = then_with-equal (bytes_cmp x y) (names_cmp xs ys) e in
    ap₂ ◌∷◌ (bytes_cmp-eq x y h) (names_cmp-eq xs ys t)

first_cmp-same : (p q : Bytes) → first_cmp p q ≡ equal → same_first p q ≡ true
unfolding first_cmp same_first
first_cmp-same [] [] e = refl
first_cmp-same [] (y ∷ q) e = cc
first_cmp-same (x ∷ p) [] e = cc
first_cmp-same (x ∷ p) (y ∷ q) e = ap (λ z. x == z) (sym (byte_cmp-eq x y e)) ∙ ==_self x

same-first_cmp : (p q : Bytes) → same_first p q ≡ true → first_cmp p q ≡ equal
unfolding first_cmp same_first byte_cmp
same-first_cmp [] [] e = refl
same-first_cmp [] (y ∷ q) e = ground arith
same-first_cmp (x ∷ p) [] e = ground arith
same-first_cmp (x ∷ p) (y ∷ q) e = ground arith

-- The order calls two paths equal exactly when the equality does.
pub path_cmp-path_eq : (p q : Bytes) → (path_cmp p q ≡ equal) ↔ (path_eq p q ≡ true)
unfolding path_cmp
path_cmp-path_eq p q = (to, from)
  where
    to : path_cmp p q ≡ equal → path_eq p q ≡ true
    to e =
        let (f, n) = then_with-equal (first_cmp p q) _ e in
        (path_eq-names p q).1 (first_cmp-same p q f, names_cmp-eq _ _ n)

    from : path_eq p q ≡ true → path_cmp p q ≡ equal
    from e =
        let (f, n) = (path_eq-names p q).0 e in
        ap₂ then_with (same-first_cmp p q f)
          (ap (names_cmp (names (components p))) (sym n) ∙ names_cmp_self (names (components p)))

same_first_self : (p : Bytes) → same_first p p ≡ true
unfolding same_first
same_first_self [] = refl
same_first_self (x ∷ p) = ==_self x

pub path_cmp_self : (p : Bytes) → path_cmp p p ≡ equal
path_cmp_self p = (path_cmp-path_eq p p).1 ((path_eq-names p p).1 (same_first_self p, refl))
