-- ===== src/Fs/Path/Strip.antt =====
-- `strip_prefix`: the bytes from the first remaining component to the last have exactly the
-- remaining components.
use servos.Prelude.{
  ℕ, suc, ◌+◌, ◌-◌, ◌≤◌, ◌≡◌, ◌≢◌, ◌⊎◌, subst, refl, ap, sym, ◌∙◌, List, [], ◌∷◌, ◌++◌, length,
  drop, eq-or-ne, ne→==, inl, inr, arith,
}
use servos.Fs.Path.{Bytes, Component, stop, extend, split, non_empty, last_stop}
use servos.Fs.Path.Split.{AllSlash, non_empty-nil, non_empty-cons}

-- the components, numbered from position `i`
abbrev pub comps : ℕ → Bytes → List Component
comps i p = non_empty (split i p)

-- What a first byte does: a separator is skipped, and any other byte grows the first slice.
pub record Grown (i c : ℕ) (cs : Bytes) : Type 0 where
  pub first : Component
  pub rest : List Component
  pub start : first.start ≡ i + 1
  pub tail : split (i + 1) cs ≡ first ∷ rest
  pub whole : comps i (c ∷ cs) ≡ record { start = i; bytes = c ∷ first.bytes } ∷ non_empty rest

split-start :
    (i : ℕ) (p : Bytes)
    → (f : Component) × (r : List Component) × (split i p ≡ f ∷ r) × (f.start ≡ i)
unfolding split
split-start i [] = (record { start = i; bytes = [] }, [], refl, refl)
split-start i (c ∷ cs) = elim (eq-or-ne c b'/') [
  | inl e ↦ (record { start = i; bytes = [] }, split (i + 1) cs, rw e refl, refl)
  | inr ne ↦
      let (f, r, h, s) = split-start (i + 1) cs in
      (record { start = i; bytes = c ∷ f.bytes }, r, rw (ne→== c b'/' ne) (ap (extend i c) h), refl)
]

skip : (i : ℕ) (cs : Bytes) → comps i (b'/' ∷ cs) ≡ comps (i + 1) cs
unfolding split non_empty
skip i cs = refl

grown : (i c : ℕ) (cs : Bytes) → c ≢ b'/' → Grown i c cs
unfolding split non_empty
grown i c cs ne =
    let (f, r, h, s) = split-start (i + 1) cs in
    record {
      first = f;
      rest = r;
      start = s;
      tail = h;
      whole = rw (ne→== c b'/' ne) (ap (λ l. non_empty (extend i c l)) h);
    }

-- The tail's components are those of the whole but the first, with the first slice of the tail
-- before them unless it is empty.
tail-cases :
    {i c : ℕ} {cs : Bytes} (g : Grown i c cs)
    → (b : Bytes) → g.first.bytes ≡ b
    → ((b ≡ []) × (comps (i + 1) cs ≡ non_empty g.rest))
      ⊎ (comps (i + 1) cs ≡ g.first ∷ non_empty g.rest)
tail-cases g [] e = inl (refl, ap non_empty g.tail ∙ non_empty-nil g.first g.rest e)
tail-cases g (x ∷ xs) e = inr (ap non_empty g.tail ∙ non_empty-cons g.first g.rest x xs e)

drop-step : (i s c : ℕ) (cs : Bytes) → i + 1 ≤ s → drop (s - i) (c ∷ cs) ≡ drop (s - (i + 1)) cs
drop-step i s c cs h =
    let e : s - i ≡ suc (s - (i + 1)) = omega arith in ap (λ k. drop k (c ∷ cs)) e

drop-none : (i : ℕ) (p : Bytes) → drop (i - i) p ≡ p
drop-none i p = let e : i - i ≡ 0 = omega arith in ap (λ k. drop k p) e

no-cons :
    (pre : List Component) (next : Component) (rest : List Component)
    → [] ≡ pre ++ (next ∷ rest)
    → ⊥
no-cons [] next rest h = ground arith
no-cons (x ∷ pre) next rest h = ground arith

abbrev head_start : Component → List Component → ℕ
head_start d [] = d.start
head_start d (c ∷ cs) = c.start

abbrev tail_of : List Component → List Component
tail_of [] = []
tail_of (c ∷ cs) = cs

-- the path `p` at position `i` has the component `next` and behind it `rest`
abbrev pub Found : ℕ → Bytes → Component → List Component → Type 0
Found i p next rest = (i ≤ next.start) × (comps next.start (drop (next.start - i) p) ≡ next ∷ rest)

abbrev Later : ℕ → Bytes → Component → List Component → Type 0
Later i cs next rest =
    (pre : List Component) → comps (i + 1) cs ≡ pre ++ (next ∷ rest) → Found (i + 1) cs next rest

-- From the position of a component on, the path has that component and those behind it.
pub comps-drop :
    (i : ℕ) (p : Bytes) (pre : List Component) (next : Component) (rest : List Component)
    → comps i p ≡ pre ++ (next ∷ rest)
    → Found i p next rest
unfolding split non_empty
comps-drop i [] pre next rest h = absurd (no-cons pre next rest h)
comps-drop i (c ∷ cs) pre next rest h =
    let ih = λ (pre' : List Component) (e : comps (i + 1) cs ≡ pre' ++ (next ∷ rest)).
      comps-drop (i + 1) cs pre' next rest e in
    elim (eq-or-ne c b'/') [
      | inl e ↦ step ih pre (sym (skip i cs) ∙ (ap (λ d. comps i (d ∷ cs)) (sym e) ∙ h))
      | inr ne ↦ other ih pre (grown i c cs ne) h
    ]
  where
    step :
        Later i cs next rest
        → (pre' : List Component) → comps (i + 1) cs ≡ pre' ++ (next ∷ rest)
        → Found i (c ∷ cs) next rest
    step ih pre' e =
        let (le, eq) = ih pre' e in
        (omega arith, ap (comps next.start) (drop-step i next.start c cs le) ∙ eq)

    other :
        Later i cs next rest
        → (pre' : List Component) → Grown i c cs
        → comps i (c ∷ cs) ≡ pre' ++ (next ∷ rest)
        → Found i (c ∷ cs) next rest
    other ih [] g e =
        let at : i ≡ next.start = ap (head_start next) (sym g.whole ∙ e) in
        (
          omega arith,
          ap (λ s. comps s (drop (s - i) (c ∷ cs))) (sym at)
              ∙ (ap (comps i) (drop-none i (c ∷ cs)) ∙ e),
        )
    other ih (x ∷ pre') g e =
        let later : non_empty g.rest ≡ pre' ++ (next ∷ rest) = ap tail_of (sym g.whole ∙ e) in
        elim (tail-cases g g.first.bytes refl) [
          | inl q ↦ step ih pre' (q.1 ∙ later)
          | inr q ↦ step ih (g.first ∷ pre') (q ∙ ap (λ l. g.first ∷ l) later)
        ]

last_stop-shift :
    {i c : ℕ} {cs : Bytes} (g : Grown i c cs)
    → last_stop i (comps i (c ∷ cs)) ≡ last_stop (i + 1) (comps (i + 1) cs)
unfolding last_stop
last_stop-shift {i} {c} {cs} g = elim (tail-cases g g.first.bytes refl) [
  | inl q ↦
      ap (last_stop i) g.whole
      ∙ (ap (λ b. last_stop (i + suc (length b)) (non_empty g.rest)) (q.0)
          ∙ sym (ap (last_stop (i + 1)) q.1))
  | inr q ↦
      let e : i + suc (length g.first.bytes) ≡ g.first.start + length g.first.bytes =
        omega (arith, g.start) in
      ap (last_stop i) g.whole
      ∙ (ap (λ d. last_stop d (non_empty g.rest)) e ∙ sym (ap (last_stop (i + 1)) q))
]

abbrev pub SlashesBehind : ℕ → Bytes → List Component → Type 0
SlashesBehind i p l = (i ≤ last_stop i l) × AllSlash (drop (last_stop i l - i) p)

behind-separator :
    (i : ℕ) (cs : Bytes) (l : List Component)
    → SlashesBehind (i + 1) cs l
    → SlashesBehind i (b'/' ∷ cs) l
unfolding last_stop
behind-separator i cs [] h = (
  omega arith,
  subst AllSlash (sym (drop-none i (b'/' ∷ cs))) (refl, subst AllSlash (drop-none (i + 1) cs) h.1),
)
behind-separator i cs (x ∷ l) h =
    (omega arith, subst AllSlash (sym (drop-step i (last_stop (stop x) l) b'/' cs (h.0))) h.1)

-- Behind the end of the last component stand separators only.
pub last_stop-slashes : (i : ℕ) (p : Bytes) → SlashesBehind i p (comps i p)
unfolding split non_empty last_stop
last_stop-slashes i [] = (omega arith, subst AllSlash (sym (drop-none i [])) tt)
last_stop-slashes i (c ∷ cs) =
    let (le, sl) = last_stop-slashes (i + 1) cs in
    elim (eq-or-ne c b'/') [
      | inl e ↦
          subst (λ d. SlashesBehind i (d ∷ cs) (comps i (d ∷ cs))) (sym e)
            (subst (SlashesBehind i (b'/' ∷ cs)) (sym (skip i cs))
              (behind-separator i cs (comps (i + 1) cs) (le, sl)))
      | inr ne ↦
          let e = last_stop-shift (grown i c cs ne) in
          (
            omega (arith, e),
            subst AllSlash
                (sym (
                  ap (λ s. drop (s - i) (c ∷ cs)) e
                  ∙ drop-step i (last_stop (i + 1) (comps (i + 1) cs)) c cs le))
                sl,
          )
    ]
