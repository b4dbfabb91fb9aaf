-- ===== src/Fs/Path/Prefix.antt =====
-- `starts_with`, `strip_prefix` and the equality of paths, against the names of the components.
use servos.Prelude.{
  ℕ, ◌-◌, ◌≡◌, ◌↔◌, ◌⊎◌, inl, inr, refl, ap, ap₂, sym, ◌∙◌, Bool, true, false, ◌&&◌, not, Option,
  none, some, List, [], ◌∷◌, ◌++◌, take, drop, ◌==◌, if◌then◌else◌, arith, take-append-drop,
  Bool-cases, Option-cases, ==→eq, ==_self,
}
use servos.Fs.Path.{
  Bytes, Component, stop, non_empty, split, components, names, last_stop, iter_after, bytes_eq,
  slice, remaining, strip_prefix, starts_with, path_eq, same_first, components_eq,
}
use servos.Fs.Path.Split.{names-components, names-append_slashes, keep, pieces}
use servos.Fs.Path.Strip.{comps, comps-drop, last_stop-slashes}

pub bytes_eq-eq : (a b : Bytes) → bytes_eq a b ≡ true → a ≡ b
unfolding bytes_eq
bytes_eq-eq [] [] h = refl
bytes_eq-eq [] (y ∷ b) h = ground arith
bytes_eq-eq (x ∷ a) [] h = ground arith
bytes_eq-eq (x ∷ a) (y ∷ b) h = elim (Bool-cases (x == y)) [
  | inl e ↦ ap₂ ◌∷◌ (==→eq x y e) (bytes_eq-eq a b (sym (ap (λ t. t && bytes_eq a b) e) ∙ h))
  | inr e ↦ ground arith
]

pub bytes_eq_self : (a : Bytes) → bytes_eq a a ≡ true
unfolding bytes_eq
bytes_eq_self [] = refl
bytes_eq_self (x ∷ a) = ap (λ t. t && bytes_eq a a) (==_self x) ∙ bytes_eq_self a

-- What `iter_after` leaves is behind components with the names of the prefix.
iter_after-split :
    (xs ys r : List Component)
    → iter_after xs ys ≡ some r
    → (pre : List Component) × (xs ≡ pre ++ r) × (names pre ≡ names ys)
unfolding iter_after
iter_after-split [] [] r h = ([], ground arith, refl)
iter_after-split [] (y ∷ ys) r h = ground arith
iter_after-split (x ∷ xs) [] r h = ([], ground arith, refl)
iter_after-split (x ∷ xs) (y ∷ ys) r h = elim (Bool-cases (bytes_eq x.bytes y.bytes)) [
  | inl e ↦
      let (pre, p, n) =
        iter_after-split xs ys r (sym (ap (λ t. if t then iter_after xs ys else none) e) ∙ h) in
      (x ∷ pre, ap (λ l. x ∷ l) p, ap₂ ◌∷◌ (bytes_eq-eq x.bytes y.bytes e) n)
  | inr e ↦ ground arith
]

abbrev rest_names : List Bytes → List Bytes
rest_names [] = []
rest_names (x ∷ l) = l

abbrev first_name : Bytes → List Bytes → Bytes
first_name d [] = d
first_name d (x ∷ l) = x

iter_after-append :
    (xs ys : List Component) (l : List Bytes)
    → names xs ≡ names ys ++ l
    → (r : List Component) × (iter_after xs ys ≡ some r) × (names r ≡ l)
unfolding iter_after
iter_after-append [] [] l h = ([], refl, h)
iter_after-append [] (y ∷ ys) l h = ground arith
iter_after-append (x ∷ xs) [] l h = (x ∷ xs, refl, h)
iter_after-append (x ∷ xs) (y ∷ ys) l h =
    let (r, e, n) = iter_after-append xs ys l (ap rest_names h) in
    let b : bytes_eq x.bytes y.bytes ≡ true =
      ap (λ t. bytes_eq x.bytes t) (sym (ap (first_name []) h)) ∙ bytes_eq_self x.bytes in
    (r, ap (λ t. if t then iter_after xs ys else none) b ∙ e, n)

sub_zero : (n : ℕ) → n ≡ n - 0
sub_zero n = omega arith

remaining-names :
    (p : Bytes) (pre cs : List Component)
    → components p ≡ pre ++ cs
    → names (components (remaining p cs)) ≡ names cs
unfolding remaining components last_stop
remaining-names p pre [] h = unfold split non_empty in refl
remaining-names p pre (n ∷ r) h =
    let (le, at) = comps-drop 0 p pre n r h in
    let d = drop n.start p in
    let from : comps n.start d ≡ n ∷ r =
      ap (λ k. comps n.start (drop k p)) (sub_zero n.start) ∙ at in
    let (le2, sl) = last_stop-slashes n.start d in
    let k = last_stop n.start (comps n.start d) - n.start in
    let e : slice p n.start (last_stop (stop n) r) ≡ take k d =
      ap (λ l. take (last_stop n.start l - n.start) d) (sym from) in
    ap (λ a. names (comps 0 a)) e
    ∙ (names-components 0 (take k d)
        ∙ (sym (names-append_slashes (take k d) (drop k d) sl)
            ∙ (ap (λ b. keep (pieces b)) (take-append-drop k d)
                ∙ (sym (names-components n.start d) ∙ ap names from))))

names-append : (a b : List Component) → names (a ++ b) ≡ names a ++ names b
names-append [] b = refl
names-append (x ∷ a) b = ap (λ l. x.bytes ∷ l) (names-append a b)

pub none-some {ℓ} : {A : Type ℓ} {a : A} → none ≡ some a → ⊥
none-some h = ground arith

pub some-eq {ℓ} : {A : Type ℓ} {a b : A} → some a ≡ some b → a ≡ b
some-eq h = ground arith

abbrev answer : Bytes → Option (List Component) → Option Bytes
answer p o = elim o [ none ↦ none | some cs ↦ some (remaining p cs) ]

abbrev is_some : Option (List Component) → Bool
is_some o = elim o [ none ↦ false | some r ↦ true ]

false-true : false ≡ true → ⊥
false-true h = ground arith

components_eq-names : (xs ys : List Component) → components_eq xs ys ≡ true → names xs ≡ names ys
unfolding components_eq
components_eq-names [] [] h = refl
components_eq-names [] (y ∷ ys) h = absurd (false-true h)
components_eq-names (x ∷ xs) [] h = absurd (false-true h)
components_eq-names (x ∷ xs) (y ∷ ys) h = elim (Bool-cases (bytes_eq x.bytes y.bytes)) [
  | inl e ↦
      ap₂ ◌∷◌ (bytes_eq-eq x.bytes y.bytes e)
        (components_eq-names xs ys (sym (ap (λ t. t && components_eq xs ys) e) ∙ h))
  | inr e ↦ absurd (false-true (sym (ap (λ t. t && components_eq xs ys) e) ∙ h))
]

names-components_eq : (xs ys : List Component) → names xs ≡ names ys → components_eq xs ys ≡ true
unfolding components_eq
names-components_eq [] [] h = refl
names-components_eq [] (y ∷ ys) h = ground arith
names-components_eq (x ∷ xs) [] h = ground arith
names-components_eq (x ∷ xs) (y ∷ ys) h =
    let b : bytes_eq x.bytes y.bytes ≡ true =
      ap (λ t. bytes_eq x.bytes t) (sym (ap (first_name []) h)) ∙ bytes_eq_self x.bytes in
    ap (λ t. t && components_eq xs ys) b ∙ names-components_eq xs ys (ap rest_names h)

-- `strip_prefix p q` answers exactly when the components of `q`, by their bytes, are the first of
-- those of `p`, and the components of its answer are then the others.
pub strip_prefix-names :
    (p q : Bytes) (l : List Bytes)
    → (names (components p) ≡ names (components q) ++ l)
      ↔ ((r : Bytes) × (strip_prefix p q ≡ some r) × (names (components r) ≡ l))
unfolding strip_prefix
strip_prefix-names p q l =
    (to, λ (r, e, n). from r e n (Option-cases (iter_after (components p) (components q))))
  where
    to :
        names (components p) ≡ names (components q) ++ l
        → (r : Bytes) × (strip_prefix p q ≡ some r) × (names (components r) ≡ l)
    to h =
        let (cs, e, n) = iter_after-append (components p) (components q) l h in
        let (pre, s, m) = iter_after-split (components p) (components q) cs e in
        (remaining p cs, ap (answer p) e, remaining-names p pre cs s ∙ n)

    from :
        (r : Bytes)
        → strip_prefix p q ≡ some r
        → names (components r) ≡ l
        → ((iter_after (components p) (components q) ≡ none)
            ⊎ ((cs : List Component) × (iter_after (components p) (components q) ≡ some cs)))
        → names (components p) ≡ names (components q) ++ l
    from r e n (inl g) = absurd (none-some (sym (ap (answer p) g) ∙ e))
    from r e n (inr (cs, g)) =
        let (pre, s, m) = iter_after-split (components p) (components q) cs g in
        let f : remaining p cs ≡ r = some-eq (sym (ap (answer p) g) ∙ e) in
        ap names s
        ∙ (names-append pre cs
            ∙ ap₂ ◌++◌ m
                (sym (remaining-names p pre cs s) ∙ (ap (λ b. names (components b)) f ∙ n)))

-- `starts_with p q` is true exactly when the components of `q` are the first of those of `p`.
pub starts_with-names :
    (p q : Bytes)
    → (starts_with p q ≡ true)
      ↔ ((l : List Bytes) × (names (components p) ≡ names (components q) ++ l))
unfolding starts_with
starts_with-names p q = (from (Option-cases (iter_after (components p) (components q))), to)
  where
    from :
        ((iter_after (components p) (components q) ≡ none)
          ⊎ ((cs : List Component) × (iter_after (components p) (components q) ≡ some cs)))
        → starts_with p q ≡ true
        → (l : List Bytes) × (names (components p) ≡ names (components q) ++ l)
    from (inl g) h = absurd (false-true (sym (ap is_some g) ∙ h))
    from (inr (cs, g)) h =
        let (pre, s, m) = iter_after-split (components p) (components q) cs g in
        (names cs, ap names s ∙ (names-append pre cs ∙ ap (λ l. l ++ names cs) m))

    to :
        ((l : List Bytes) × (names (components p) ≡ names (components q) ++ l))
        → starts_with p q ≡ true
    to (l, h) = let (cs, e, n) = iter_after-append (components p) (components q) l h in ap is_some e

-- Two paths are equal exactly when they begin with the same byte, or are both empty, and the names
-- of their components agree.
pub path_eq-names :
    (p q : Bytes)
    → (path_eq p q ≡ true)
      ↔ ((same_first p q ≡ true) × (names (components p) ≡ names (components q)))
unfolding path_eq
path_eq-names p q = (from (Bool-cases (same_first p q)), λ (f, n). to f n)
  where
    test : Bool → Bool
    test b = if not b then false else components_eq (components p) (components q)

    from :
        ((same_first p q ≡ true) ⊎ (same_first p q ≡ false))
        → path_eq p q ≡ true
        → (same_first p q ≡ true) × (names (components p) ≡ names (components q))
    from (inl f) h = (f, components_eq-names (components p) (components q) (sym (ap test f) ∙ h))
    from (inr f) h = absurd (false-true (sym (ap test f) ∙ h))

    to : same_first p q ≡ true → names (components p) ≡ names (components q) → path_eq p q ≡ true
    to f n = ap test f ∙ names-components_eq (components p) (components q) n
