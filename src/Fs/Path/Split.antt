-- ===== src/Fs/Path/Split.antt =====
-- Where the components of a path stand in its bytes.
use servos.Prelude.{
  ℕ, ◌+◌, ◌≡◌, refl, ap, ap₂, sym, ◌∙◌, List, [], ◌∷◌, ◌++◌, ◌==◌, if◌then◌else◌, eq-or-ne, ne→==,
  inl, inr, arith, append-nil,
}
use servos.Fs.Path.{Bytes, Component, extend, split, non_empty, names, components}

pub grow : ℕ → List Bytes → List Bytes
grow c [] = []
grow c (s ∷ rest) = (c ∷ s) ∷ rest

-- the slices between separators, without their positions
pub pieces : Bytes → List Bytes
pieces [] = [] ∷ []
pieces (c ∷ cs) = let rest = pieces cs in if c == b'/' then [] ∷ rest else grow c rest

-- the slices that are not empty
pub keep : List Bytes → List Bytes
keep [] = []
keep ([] ∷ l) = keep l
keep ((c ∷ cs) ∷ l) = (c ∷ cs) ∷ keep l

names-extend : (i c : ℕ) (l : List Component) → names (extend i c l) ≡ grow c (names l)
unfolding grow
names-extend i c [] = refl
names-extend i c (s ∷ l) = refl

names-split : (i : ℕ) (p : Bytes) → names (split i p) ≡ pieces p
unfolding split pieces
names-split i [] = refl
names-split i (c ∷ cs) = elim (eq-or-ne c b'/') [
  | inl e ↦ rw e (ap (λ l. [] ∷ l) (names-split (i + 1) cs))
  | inr ne ↦
      rw (ne→== c b'/' ne)
        (names-extend i c (split (i + 1) cs) ∙ ap (grow c) (names-split (i + 1) cs))
]

pub non_empty-nil :
    (s : Component) (l : List Component) → s.bytes ≡ [] → non_empty (s ∷ l) ≡ non_empty l
unfolding non_empty
non_empty-nil s l e = ground arith

pub non_empty-cons :
    (s : Component) (l : List Component) (c : ℕ) (cs : Bytes)
    → s.bytes ≡ c ∷ cs
    → non_empty (s ∷ l) ≡ s ∷ non_empty l
unfolding non_empty
non_empty-cons s l c cs e = ground arith

names-non_empty : (l : List Component) → names (non_empty l) ≡ keep (names l)
unfolding keep
names-non_empty [] = unfold non_empty in refl
names-non_empty (s ∷ l) = go s.bytes refl (names-non_empty l)
  where
    go :
        (b : Bytes)
        → s.bytes ≡ b
        → names (non_empty l) ≡ keep (names l)
        → names (non_empty (s ∷ l)) ≡ keep (names (s ∷ l))
    go [] e ih = ap names (non_empty-nil s l e) ∙ (ih ∙ ap (λ b. keep (b ∷ names l)) (sym e))
    go (c ∷ cs) e ih =
        ap names (non_empty-cons s l c cs e) ∙ (ap₂ ◌∷◌ e ih ∙ ap (λ b. keep (b ∷ names l)) (sym e))

-- The names of the components depend on the bytes alone.
pub names-components : (i : ℕ) (p : Bytes) → names (non_empty (split i p)) ≡ keep (pieces p)
names-components i p = names-non_empty (split i p) ∙ ap keep (names-split i p)

abbrev pub AllSlash : Bytes → Type 0
AllSlash [] = Unit
AllSlash (c ∷ cs) = (c ≡ b'/') × AllSlash cs

keep-append : (l k : List Bytes) → keep (l ++ k) ≡ keep l ++ keep k
unfolding keep
keep-append [] k = refl
keep-append ([] ∷ l) k = keep-append l k
keep-append ((c ∷ cs) ∷ l) k = ap (λ r. (c ∷ cs) ∷ r) (keep-append l k)

pieces-slashes : (b : Bytes) → AllSlash b → keep (pieces b) ≡ []
unfolding keep pieces
pieces-slashes [] h = refl
pieces-slashes (c ∷ cs) h = rw (h.0) (pieces-slashes cs h.1)

pieces-cons : (p : Bytes) → (s : Bytes) × (r : List Bytes) × (pieces p ≡ s ∷ r)
unfolding pieces grow
pieces-cons [] = ([], [], refl)
pieces-cons (c ∷ cs) = elim (eq-or-ne c b'/') [
  | inl e ↦ ([], pieces cs, rw e refl)
  | inr ne ↦ let (s, r, h) = pieces-cons cs in (c ∷ s, r, rw (ne→== c b'/' ne) (ap (grow c) h))
]

pieces-append :
    (a b : Bytes)
    → AllSlash b
    → (z : List Bytes) × (pieces (a ++ b) ≡ pieces a ++ z) × (keep z ≡ [])
unfolding pieces grow keep
pieces-append [] [] h = ([], refl, refl)
pieces-append [] (c ∷ cs) h = (pieces cs, rw (h.0) refl, pieces-slashes cs h.1)
pieces-append (c ∷ cs) b h =
    let (z, e, k) = pieces-append cs b h in
    elim (eq-or-ne c b'/') [
      | inl s ↦ (z, rw s (ap (λ l. [] ∷ l) e), k)
      | inr ne ↦
          let (s, r, q) = pieces-cons cs in
          (
            z,
            rw (ne→== c b'/' ne)
                (ap (grow c) (e ∙ ap (λ l. l ++ z) q) ∙ sym (ap (λ l. grow c l ++ z) q)),
            k,
          )
    ]

-- Separators at the end of a path add no component.
pub names-append_slashes : (a b : Bytes) → AllSlash b → keep (pieces (a ++ b)) ≡ keep (pieces a)
names-append_slashes a b h =
    let (z, e, k) = pieces-append a b h in
    ap keep e
    ∙ (keep-append (pieces a) z ∙ (ap (λ l. keep (pieces a) ++ l) k ∙ append-nil (keep (pieces a))))

pieces-join : (a b : Bytes) → pieces (a ++ (b'/' ∷ b)) ≡ pieces a ++ pieces b
unfolding pieces grow
pieces-join [] b = refl
pieces-join (c ∷ cs) b = elim (eq-or-ne c b'/') [
  | inl s ↦ rw s (ap (λ l. [] ∷ l) (pieces-join cs b))
  | inr ne ↦
      let (s, r, q) = pieces-cons cs in
      rw (ne→== c b'/' ne) (
        ap (grow c) (pieces-join cs b ∙ ap (λ l. l ++ pieces b) q)
        ∙ sym (ap (λ l. grow c l ++ pieces b) q))
]

-- The components of two paths with a separator between them are those of both.
pub names-join :
    (a b : Bytes)
    → names (components (a ++ (b'/' ∷ b))) ≡ names (components a) ++ names (components b)
unfolding components
names-join a b =
    names-components 0 (a ++ (b'/' ∷ b))
    ∙ (ap keep (pieces-join a b)
        ∙ (keep-append (pieces a) (pieces b)
            ∙ sym (ap₂ ◌++◌ (names-components 0 a) (names-components 0 b))))
