-- ===== src/Vmm/Paging/Drop/Frees.antt =====
-- Dropping a page table gives back its tables and its own pages, and nothing else.
use servos.Prelude.{
  eq-or-ne, ℕ, zero, suc, ◌+◌, ◌*◌, ◌<◌, ◌≤◌, ◌≡◌, refl, ap, sym, subst, none, some, List, [], ◌∷◌,
  ◌++◌, arith, true, Bool-cases, ◌⊎◌, ◌↔◌, inl, inr,
}
use servos.Vmm.Pte.{leaf, page_table, next, is_owned}
use servos.Vmm.Memory.{Memory, free_page}
use servos.Vmm.Paging.Owner.{Owner, table, data_page, Owners, Owns, Supply}
use servos.Vmm.Paging.Drop.{◌>>=◌, drop_box}
use servos.Vmm.Paging.Drop.Pages.{
  entry_pages, pages_from, pages_of, PteLink-cases, drop_table-pages,
}
use servos.Vmm.Paging.Drop.Once.{
  All, Once, All-append, All-mono, Once-append, pages_of-Once, whole, Under,
}

-- A page is part of a table: the table itself, a page that an entry owns, or a part of a table that
-- an entry links to.
pub data Part (m : Memory) : ℕ → ℕ → Type 0 where
  itself : {pt : ℕ} → Part m pt pt
  owned :
      {pt x : ℕ} (i : ℕ)
      → i < 512
      → next (m.tables pt i) ≡ leaf x
      → is_owned (m.tables pt i) ≡ true
      → Part m pt x
  linked :
      {pt x : ℕ} (i b : ℕ)
      → i < 512
      → next (m.tables pt i) ≡ page_table b
      → Part m b x
      → Part m pt x

abbrev pub In : ℕ → List ℕ → Type 0
In x [] = ⊥
In x (y ∷ l) = (x ≡ y) ⊎ In x l

In-left : (x : ℕ) (xs ys : List ℕ) → In x xs → In x (xs ++ ys)
In-left x [] ys h = absurd h
In-left x (z ∷ xs) ys (inl e) = inl e
In-left x (z ∷ xs) ys (inr h) = inr (In-left x xs ys h)

In-right : (x : ℕ) (xs ys : List ℕ) → In x ys → In x (xs ++ ys)
In-right x [] ys h = h
In-right x (z ∷ xs) ys h = inr (In-right x xs ys h)

In-All : (P : ℕ → Type 0) (x : ℕ) (l : List ℕ) → All P l → In x l → P x
In-All P x [] a h = absurd h
In-All P x (y ∷ l) a (inl e) = subst P (sym e) a.0
In-All P x (y ∷ l) a (inr h) = In-All P x l a.1 h

In-entry_pages-owned :
    (below : ℕ → List ℕ) (e x : ℕ)
    → next e ≡ leaf x
    → is_owned e ≡ true
    → In x (entry_pages below e)
unfolding entry_pages
In-entry_pages-owned below e x h o =
    let q : entry_pages below e ≡ x ∷ [] = ground arith in subst (In x) (sym q) (inl refl)

In-entry_pages-linked :
    (below : ℕ → List ℕ) (e b x : ℕ)
    → next e ≡ page_table b
    → In x (b ∷ below b)
    → In x (entry_pages below e)
unfolding entry_pages
In-entry_pages-linked below e b x h i =
    let q : entry_pages below e ≡ b ∷ below b = ground arith in subst (In x) (sym q) i

In-pages_from :
    (below : ℕ → List ℕ) (entries : ℕ → ℕ) (x j i n : ℕ)
    → i ≤ j
    → j < i + n
    → In x (entry_pages below (entries j))
    → In x (pages_from below entries i n)
unfolding pages_from
In-pages_from below entries x j i zero s s' h = absurd (omega arith)
In-pages_from below entries x j i (suc n) s s' h = elim (eq-or-ne i j) [
  | inl e ↦
      In-right x (pages_from below entries (i + 1) n) (entry_pages below (entries i))
        (subst (λ k. In x (entry_pages below (entries k))) (sym e) h)
  | inr ne ↦
      In-left x (pages_from below entries (i + 1) n) (entry_pages below (entries i))
        (In-pages_from below entries x j (i + 1) n (omega arith) (omega arith) h)
]

module _ {root : ℕ} {own : Owners} {m : Memory} (w : Owns root own m) where
  -- Every part is given back.
  Part-In :
      (level p pt x : ℕ)
      → own pt ≡ some (table level p)
      → Part m pt x
      → In x (pt ∷ pages_of (suc level) m pt)
  unfolding pages_of
  Part-In level p pt x o itself = inl refl
  Part-In level p pt x o (owned i s l y) = inr (
      In-pages_from (pages_of level m) (m.tables pt) x i 0 512 (omega arith) (omega arith)
        (In-entry_pages-owned (pages_of level m) (m.tables pt i) x l y))
  Part-In zero p pt x o (linked i b s l r) = absurd (w.no_link_below pt p i b o s l)
  Part-In (suc level) p pt x o (linked i b s l r) = inr (
      In-pages_from (pages_of (suc level) m) (m.tables pt) x i 0 512 (omega arith) (omega arith) (
        In-entry_pages-linked (pages_of (suc level) m) (m.tables pt i) b x l
          (Part-In level (p * 512 + i) b x (w.child pt level p i b o s l) r)))

-- Only parts are given back.
module _ (m : Memory) where
  entry_pages-Part :
      (below : ℕ → List ℕ) (pt i : ℕ)
      → i < 512
      → ((b : ℕ) → All (Part m b) (below b))
      → All (Part m pt) (entry_pages below (m.tables pt i))
  unfolding entry_pages
  entry_pages-Part below pt i s h =
      PteLink-cases (next (m.tables pt i)) _
        (λ a q. elim (Bool-cases (is_owned (m.tables pt i))) [
          | inl y ↦ as_list (a ∷ []) (ground arith) (owned i s q y, tt)
          | inr n ↦ as_list [] (ground arith) tt
        ])
        (λ b q. as_list (b ∷ below b) (ground arith) (
          linked i b s q itself,
          All-mono (Part m b) (Part m pt) (below b) (λ x r. linked i b s q r) (h b),
        ))
        (λ q. as_list [] (ground arith) tt)
    where
      as_list :
          (l : List ℕ)
          → entry_pages below (m.tables pt i) ≡ l
          → All (Part m pt) l
          → All (Part m pt) (entry_pages below (m.tables pt i))
      as_list l e g = subst (All (Part m pt)) (sym e) g

  pages_from-Part :
      (below : ℕ → List ℕ) (pt i n : ℕ)
      → i + n ≤ 512
      → ((b : ℕ) → All (Part m b) (below b))
      → All (Part m pt) (pages_from below (m.tables pt) i n)
  unfolding pages_from
  pages_from-Part below pt i zero s h = tt
  pages_from-Part below pt i (suc n) s h =
      All-append (Part m pt) (pages_from below (m.tables pt) (i + 1) n)
        (entry_pages below (m.tables pt i)) (pages_from-Part below pt (i + 1) n (omega arith) h)
        (entry_pages-Part below pt i (omega arith) h)

  pages_of-Part : (levels pt : ℕ) → All (Part m pt) (pages_of levels m pt)
  unfolding pages_of
  pages_of-Part zero pt = tt
  pages_of-Part (suc levels) pt =
      pages_from-Part (pages_of levels m) pt 0 512 (omega arith) (pages_of-Part levels)

Under-owner : (own : Owners) (level p x : ℕ) → Under own level p x → (o : Owner) × (own x ≡ some o)
Under-owner own zero p x (inl h) = (table zero p, h)
Under-owner own zero p x (inr (t, i, h, g)) = (data_page t i, g)
Under-owner own (suc level) p x (inl h) = (table (suc level) p, h)
Under-owner own (suc level) p x (inr (i, s, u)) = Under-owner own level (p * 512 + i) x u

abbrev Unowned : Owners → ℕ → Type 0
Unowned own x = own x ≡ none

Under-not-Unowned : (own : Owners) (level p x : ℕ) → Under own level p x → ¬ Unowned own x
Under-not-Unowned own level p x u e = let (o, g) = Under-owner own level p x u in cc

Supply-Once : (own : Owners) (l : List ℕ) → Supply own l → All (Unowned own) l × Once l
Supply-Once own [] s = (tt, tt)
Supply-Once own (a ∷ l) s = let (u, o) = Supply-Once own l s.3 in ((s.0, u), (s.2, o))

-- Where every page in use has its owner, dropping the box of the page table ends, with a unit of
-- fuel for each of the three levels. It puts a list of pages in front of the free ones and changes
-- nothing else in memory; these pages are just the parts of the table: its tables, and the pages that
-- an entry owns; and no page is then free twice.
pub drop_box-frees :
    (root : ℕ) (own : Owners) (m : Memory)
    → Owns root own m
    → (freed : List ℕ) × (drop_box 3 root m ≡ some (record m { free = freed ++ m.free }))
      × ((x : ℕ) → In x freed ↔ Part m root x)
      × Once (freed ++ m.free)
unfolding drop_box free_page
drop_box-frees root own m w =
    let all = root ∷ pages_of 3 m root in
    let (under, once) =
      whole w 2 0 root (pages_of 3 m root) w.root_table (pages_of-Once w 2 0 root w.root_table) in
    let (unowned, once') = Supply-Once own m.free w.supply in
    (
      all,
      ap (λ r. r >>= λ m'. some (free_page root m'))
          (drop_table-pages w 2 0 root m.free w.root_table),
      (λ x. (
        In-All (Part m root) x all (itself, pages_of-Part m 3 root),
        Part-In w 2 0 root x w.root_table,
      )),
      Once-append (Under own 2 0) (Unowned own) all m.free (Under-not-Unowned own 2 0) under unowned
          once once',
    )
