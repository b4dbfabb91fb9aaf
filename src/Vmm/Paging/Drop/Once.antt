-- ===== src/Vmm/Paging/Drop/Once.antt =====
-- No page is given back twice: where the pages below a table stand is told by their owners.
use servos.Prelude.{
  ℕ, zero, suc, ◌+◌, ◌*◌, ◌<◌, ◌≤◌, ◌≡◌, ◌≢◌, ap, sym, subst, some, List, [], ◌∷◌, ◌++◌, arith,
  true, Bool-cases, ◌⊎◌, inl, inr,
}
use servos.Vmm.Pte.{leaf, page_table, next, is_owned}
use servos.Vmm.Memory.{Memory}
use servos.Vmm.Paging.Owner.{table, data_page, Owners, Owns, NotIn, slot-injective}
use servos.Vmm.Paging.Drop.Pages.{entry_pages, pages_from, pages_of, PteLink-cases}

-- every element has the property
abbrev pub All : (ℕ → Type 0) → List ℕ → Type 0
All P [] = Unit
All P (a ∷ l) = P a × All P l

-- every element stands in the list once
abbrev pub Once : List ℕ → Type 0
Once [] = Unit
Once (a ∷ l) = NotIn a l × Once l

pub All-append : (P : ℕ → Type 0) (xs ys : List ℕ) → All P xs → All P ys → All P (xs ++ ys)
All-append P [] ys h g = g
All-append P (x ∷ xs) ys h g = (h.0, All-append P xs ys h.1 g)

pub All-mono : (P Q : ℕ → Type 0) (xs : List ℕ) → ((x : ℕ) → P x → Q x) → All P xs → All Q xs
All-mono P Q [] f h = tt
All-mono P Q (x ∷ xs) f h = (f x h.0, All-mono P Q xs f h.1)

NotIn-append : (x : ℕ) (xs ys : List ℕ) → NotIn x xs → NotIn x ys → NotIn x (xs ++ ys)
NotIn-append x [] ys h g = g
NotIn-append x (y ∷ xs) ys h g = (h.0, NotIn-append x xs ys h.1 g)

pub All-NotIn : (P : ℕ → Type 0) (x : ℕ) (ys : List ℕ) → ¬ P x → All P ys → NotIn x ys
All-NotIn P x [] n h = tt
All-NotIn P x (y ∷ ys) n h = ((λ e. n (subst P (sym e) h.0)), All-NotIn P x ys n h.1)

-- Two lists whose elements have properties that exclude one another.
pub Once-append :
    (P Q : ℕ → Type 0) (xs ys : List ℕ)
    → ((x : ℕ) → P x → ¬ Q x)
    → All P xs
    → All Q ys
    → Once xs
    → Once ys
    → Once (xs ++ ys)
Once-append P Q [] ys no_both h g o o' = o'
Once-append P Q (x ∷ xs) ys no_both h g o o' = (
  NotIn-append x xs ys o.0 (All-NotIn Q x ys (no_both x h.0) g),
  Once-append P Q xs ys no_both h.1 g o.1 o',
)

module _ (own : Owners) where
  -- The page is the table of a level and a prefix, or belongs to it.
  abbrev pub Under : ℕ → ℕ → ℕ → Type 0
  Under zero p x =
      (own x ≡ some (table zero p))
      ⊎ ((t : ℕ) × (i : ℕ) × (own t ≡ some (table zero p)) × (own x ≡ some (data_page t i)))
  Under (suc level) p x =
      (own x ≡ some (table (suc level) p)) ⊎ ((i : ℕ) × (i < 512) × Under level (p * 512 + i) x)

  -- It belongs to the entry `i` of that table, which is at `pt`.
  abbrev pub Entry : ℕ → ℕ → ℕ → ℕ → ℕ → Type 0
  Entry zero p pt i x = own x ≡ some (data_page pt i)
  Entry (suc level) p pt i x = Under level (p * 512 + i) x

  Under-level : (level p x k q : ℕ) → Under level p x → own x ≡ some (table k q) → k ≤ level
  Under-level zero p x k q (inl h) o = let e : k ≡ zero = cc in omega arith
  Under-level zero p x k q (inr (t, i, h, g)) o = cc
  Under-level (suc level) p x k q (inl h) o = let e : k ≡ suc level = cc in omega arith
  Under-level (suc level) p x k q (inr (i, s, u)) o =
      omega (arith, Under-level level (p * 512 + i) x k q u o)

  Under-prefix : (level p q x : ℕ) → Under level p x → Under level q x → p ≡ q
  Under-prefix zero p q x (inl h) (inl g) = cc
  Under-prefix zero p q x (inl h) (inr (t, i, g, g')) = cc
  Under-prefix zero p q x (inr (t, i, h, h')) (inl g) = cc
  Under-prefix zero p q x (inr (t, i, h, h')) (inr (u, j, g, g')) =
      let e : t ≡ u = cc in cc (ap own e)
  Under-prefix (suc level) p q x (inl h) (inl g) = cc
  Under-prefix (suc level) p q x (inl h) (inr (i, s, u)) =
      absurd (omega (arith, Under-level level (q * 512 + i) x (suc level) p u h))
  Under-prefix (suc level) p q x (inr (i, s, u)) (inl g) =
      absurd (omega (arith, Under-level level (p * 512 + i) x (suc level) q u g))
  Under-prefix (suc level) p q x (inr (i, s, u)) (inr (j, s', u')) =
      (slot-injective p i q j s s' (Under-prefix level (p * 512 + i) (q * 512 + j) x u u')).0

  Entry-index :
      (level p pt i j x : ℕ)
      → i < 512
      → j < 512
      → Entry level p pt i x
      → Entry level p pt j x
      → i ≡ j
  Entry-index zero p pt i j x s s' h g = cc
  Entry-index (suc level) p pt i j x s s' h g =
      (slot-injective p i p j s s' (Under-prefix level (p * 512 + i) (p * 512 + j) x h g)).1

  pub Entry-Under :
      (level p pt i x : ℕ)
      → own pt ≡ some (table level p)
      → i < 512
      → Entry level p pt i x
      → Under level p x
  Entry-Under zero p pt i x o s h = inr (pt, i, o, h)
  Entry-Under (suc level) p pt i x o s h = inr (i, s, h)

  Entry-ne-table : (level p pt i x : ℕ) → Entry level p pt i x → own x ≢ some (table level p)
  Entry-ne-table zero p pt i x h o = cc
  Entry-ne-table (suc level) p pt i x h o =
      omega (arith, Under-level level (p * 512 + i) x (suc level) p h o)

  at_table : (level p x : ℕ) → own x ≡ some (table level p) → Under level p x
  at_table zero p x h = inl h
  at_table (suc level) p x h = inl h

  -- It belongs to an entry from `i` on.
  abbrev pub From : ℕ → ℕ → ℕ → ℕ → ℕ → Type 0
  From level p pt i x = (j : ℕ) × (i ≤ j) × (j < 512) × Entry level p pt j x

  From-later : (level p pt i x : ℕ) → From level p pt (i + 1) x → ¬ Entry level p pt i x
  From-later level p pt i x (j, s, s', h) g =
      let e : j ≡ i = Entry-index level p pt j i x s' (omega arith) h g in omega arith

  pages_from-Once :
      (below : ℕ → List ℕ) (entries : ℕ → ℕ) (level p pt i n : ℕ)
      → i + n ≤ 512
      → ((j : ℕ)
          → j < 512
          → All (Entry level p pt j) (entry_pages below (entries j))
            × Once (entry_pages below (entries j)))
      → All (From level p pt i) (pages_from below entries i n) × Once (pages_from below entries i n)
  unfolding pages_from
  pages_from-Once below entries level p pt i zero s h = (tt, tt)
  pages_from-Once below entries level p pt i (suc n) s h =
      let (a, o) = pages_from-Once below entries level p pt (i + 1) n (omega arith) h in
      let (a', o') = h i (omega arith) in
      (
        All-append (From level p pt i) (pages_from below entries (i + 1) n)
            (entry_pages below (entries i))
            (All-mono (From level p pt (i + 1)) (From level p pt i)
              (pages_from below entries (i + 1) n) (λ x f. (f.0, omega (arith, f.1), f.2, f.3)) a)
            (All-mono (Entry level p pt i) (From level p pt i) (entry_pages below (entries i))
              (λ x f. (i, omega arith, omega arith, f)) a'),
        Once-append (From level p pt (i + 1)) (Entry level p pt i)
            (pages_from below entries (i + 1) n) (entry_pages below (entries i))
            (From-later level p pt i) a a' o o',
      )

module _ {root : ℕ} {own : Owners} {m : Memory} (w : Owns root own m) where
  -- what one entry gives back: its page, or its table and what that gives back
  entry_pages-Once :
      (below : ℕ → List ℕ) (level p pt i : ℕ)
      → own pt ≡ some (table level p)
      → i < 512
      → ((b : ℕ)
          → next (m.tables pt i) ≡ page_table b
          → All (Entry own level p pt i) (b ∷ below b) × Once (b ∷ below b))
      → ((b : ℕ)
          → next (m.tables pt i) ≡ leaf b
          → is_owned (m.tables pt i) ≡ true
          → Entry own level p pt i b)
      → All (Entry own level p pt i) (entry_pages below (m.tables pt i))
        × Once (entry_pages below (m.tables pt i))
  unfolding entry_pages
  entry_pages-Once below level p pt i o s tables leaves =
      PteLink-cases (next (m.tables pt i)) _
        (λ a q. elim (Bool-cases (is_owned (m.tables pt i))) [
          | inl y ↦ as_list (a ∷ []) (ground arith) ((leaves a q y, tt), (tt, tt))
          | inr n ↦ as_list [] (ground arith) (tt, tt)
        ])
        (λ b q. as_list (b ∷ below b) (ground arith) (tables b q))
        (λ q. as_list [] (ground arith) (tt, tt))
    where
      as_list :
          (l : List ℕ)
          → entry_pages below (m.tables pt i) ≡ l
          → All (Entry own level p pt i) l × Once l
          → All (Entry own level p pt i) (entry_pages below (m.tables pt i))
            × Once (entry_pages below (m.tables pt i))
      as_list l e g = subst (λ k. All (Entry own level p pt i) k × Once k) (sym e) g

  -- with the table itself
  pub whole :
      (level p b : ℕ) (l : List ℕ)
      → own b ≡ some (table level p)
      → All (From own level p b 0) l × Once l
      → All (Under own level p) (b ∷ l) × Once (b ∷ l)
  whole level p b l o (a, once) = (
    (
      at_table own level p b o,
      All-mono (From own level p b 0) (Under own level p) l
          (λ x f. Entry-Under own level p b f.0 x o f.2 f.3) a,
    ),
    (All-NotIn (From own level p b 0) b l (λ f. Entry-ne-table own level p b f.0 b f.3 o) a, once),
  )

  pub pages_of-Once :
      (level p pt : ℕ)
      → own pt ≡ some (table level p)
      → All (From own level p pt 0) (pages_of (suc level) m pt) × Once (pages_of (suc level) m pt)
  unfolding pages_of
  pages_of-Once zero p pt o =
      pages_from-Once own (pages_of zero m) (m.tables pt) zero p pt 0 512 (omega arith) (λ j s.
        entry_pages-Once (pages_of zero m) zero p pt j o s
          (λ b l. absurd (w.no_link_below pt p j b o s l)) (λ b l y. w.owned_leaf pt p j b o s l y))
  pages_of-Once (suc level) p pt o =
      pages_from-Once own (pages_of (suc level) m) (m.tables pt) (suc level) p pt 0 512
        (omega arith)
        (λ j s.
          entry_pages-Once (pages_of (suc level) m) (suc level) p pt j o s
            (λ b l.
              whole level (p * 512 + j) b (pages_of (suc level) m b) (w.child pt level p j b o s l)
                (pages_of-Once level (p * 512 + j) b (w.child pt level p j b o s l)))
            (λ b l y. absurd (w.no_large_leaf pt level p j b o s l)))
