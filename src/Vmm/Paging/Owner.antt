-- ===== src/Vmm/Paging/Owner.antt =====
-- Who owns a page of memory. A page table owns the tables that its entries link to, as the raw
-- pointers of the source do: `Owns` gives every page in use its owner, so no page has two.
use servos.Prelude.{
  ℕ, zero, suc, ◌+◌, ◌*◌, ◌%◌, ◌^◌, ◌<◌, ◌≡◌, ◌≢◌, refl, ap, true, Option, none, some, List, [],
  ◌∷◌, ◌==◌, if◌then◌else◌, arith, eq-or-ne, inl, inr,
}
use servos.Vmm.Pte.{leaf, page_table, next, is_owned}
use servos.Vmm.Memory.{Memory, write_entry}

-- The table of a level whose virtual page numbers so far make up a prefix; a data page that the
-- entry at an index of a table owns; a page that a caller holds as a `Box<Page>`.
pub data Owner : Type 0 where
  table : ℕ → ℕ → Owner
  data_page : ℕ → ℕ → Owner
  held : Owner

abbrev pub Owners : Type 0
Owners = ℕ → Option Owner

abbrev pub IsPage : ℕ → Type 0
IsPage a = (a % 4096 ≡ 0) × (a < 2 ^ 64)

abbrev pub NotIn : ℕ → List ℕ → Type 0
NotIn a [] = Unit
NotIn a (b ∷ bs) = (a ≢ b) × NotIn a bs

-- The free pages are pages that nobody owns, each listed once.
abbrev pub Supply : Owners → List ℕ → Type 0
Supply own [] = Unit
Supply own (a ∷ rest) = (own a ≡ none) × IsPage a × NotIn a rest × Supply own rest

pub record Owns (root : ℕ) (own : Owners) (m : Memory) : Type 0 where
  pub root_table : own root ≡ some (table 2 0)
  pub child :
      (a level p i b : ℕ)
      → own a ≡ some (table (suc level) p)
      → i < 512
      → next (m.tables a i) ≡ page_table b
      → own b ≡ some (table level (p * 512 + i))
  pub no_large_leaf :
      (a level p i b : ℕ)
      → own a ≡ some (table (suc level) p)
      → i < 512
      → next (m.tables a i) ≢ leaf b
  pub no_link_below :
      (a p i b : ℕ) → own a ≡ some (table zero p) → i < 512 → next (m.tables a i) ≢ page_table b
  pub owned_leaf :
      (a p i b : ℕ)
      → own a ≡ some (table zero p)
      → i < 512
      → next (m.tables a i) ≡ leaf b
      → is_owned (m.tables a i) ≡ true
      → own b ≡ some (data_page a i)
  pub supply : Supply own m.free

abbrev pub grant : Owners → ℕ → Owner → Owners
grant own a o b = if a == b then some o else own b

pub NotIn-ne :
    (own : Owners) {o : Owner} (a : ℕ) → own a ≡ some o → (l : List ℕ) → Supply own l → NotIn a l
NotIn-ne own a h [] s = tt
NotIn-ne own a h (b ∷ bs) s = (λ e. cc (ap own e, s.0), NotIn-ne own a h bs s.3)

pub Supply-grant :
    (own : Owners) (a : ℕ) (o : Owner) (l : List ℕ)
    → NotIn a l
    → Supply own l
    → Supply (grant own a o) l
Supply-grant own a o [] n s = tt
Supply-grant own a o (b ∷ bs) n s = (ground (arith, n.0), s.1, s.2, Supply-grant own a o bs n.1 s.3)

-- A slot of a table has one place: the prefix and the index are read off the slot below.
pub slot-injective :
    (p i p' i' : ℕ) → i < 512 → i' < 512 → p * 512 + i ≡ p' * 512 + i' → (p ≡ p') × (i ≡ i')
slot-injective p i p' i' h h' e = omega arith

module _ (pt i e : ℕ) (m : Memory) where
  pub write-read_self : (write_entry pt i e m).tables pt i ≡ e
  unfolding write_entry
  write-read_self = ground arith

  pub write-read_index : (j : ℕ) → i ≢ j → (write_entry pt i e m).tables pt j ≡ m.tables pt j
  unfolding write_entry
  write-read_index j h = ground arith

  pub write-read_other : (a j : ℕ) → pt ≢ a → (write_entry pt i e m).tables a j ≡ m.tables a j
  unfolding write_entry
  write-read_other a j h = ground arith

  pub write-free : (write_entry pt i e m).free ≡ m.free
  unfolding write_entry
  write-free = refl

-- What may stand in a slot of a table.
abbrev pub Fits : Owners → ℕ → ℕ → ℕ → ℕ → ℕ → Type 0
Fits own zero p a i e =
    ((b : ℕ) → next e ≢ page_table b)
    × ((b : ℕ) → next e ≡ leaf b → is_owned e ≡ true → own b ≡ some (data_page a i))
Fits own (suc level) p a i e =
    ((b : ℕ) → next e ≡ page_table b → own b ≡ some (table level (p * 512 + i)))
    × ((b : ℕ) → next e ≢ leaf b)

-- Every entry of an owned table fits its slot, and that is all that `Owns` says of the entries.
pub Owns-Fits :
    {root : ℕ} {own : Owners} {m : Memory} (a level p i : ℕ)
    → Owns root own m
    → own a ≡ some (table level p)
    → i < 512
    → Fits own level p a i (m.tables a i)
Owns-Fits a zero p i w h s = (λ b. w.no_link_below a p i b h s, λ b. w.owned_leaf a p i b h s)
Owns-Fits a (suc level) p i w h s =
    (λ b. w.child a level p i b h s, λ b. w.no_large_leaf a level p i b h s)

pub Fits-Owns :
    {root : ℕ} {own : Owners} (m : Memory)
    → own root ≡ some (table 2 0)
    → ((a level p i : ℕ)
        → own a ≡ some (table level p)
        → i < 512
        → Fits own level p a i (m.tables a i))
    → Supply own m.free
    → Owns root own m
Fits-Owns m r f s = record {
  root_table = r;
  child = λ a level p i b h l. (f a (suc level) p i h l).0 b;
  no_large_leaf = λ a level p i b h l. (f a (suc level) p i h l).1 b;
  no_link_below = λ a p i b h l. (f a zero p i h l).0 b;
  owned_leaf = λ a p i b h l. (f a zero p i h l).1 b;
  supply = s;
}

-- Two tables in one place are one: an owner names its level and prefix.
slot-level :
    (own : Owners) (pt l p l' p' : ℕ)
    → own pt ≡ some (table l p)
    → own pt ≡ some (table l' p')
    → (l ≡ l') × (p ≡ p')
slot-level own pt l p l' p' h h' = (cc, cc)

Fits-at :
    (own : Owners) (l p a i e : ℕ) (l' p' b j e' : ℕ)
    → l ≡ l'
    → p ≡ p'
    → a ≡ b
    → i ≡ j
    → e ≡ e'
    → Fits own l p a i e
    → Fits own l' p' b j e'
Fits-at own l p a i e l' p' b j e' el ep ea ei ee f = rw (← el, ← ep, ← ea, ← ei, ← ee) f

-- No entry refers to a page but its tables and its data.
pub Fits-keeps :
    (own own' : Owners) (level p a i e : ℕ)
    → ((b l q : ℕ) → own b ≡ some (table l q) → own' b ≡ some (table l q))
    → ((b t j : ℕ) → own b ≡ some (data_page t j) → own' b ≡ some (data_page t j))
    → Fits own level p a i e
    → Fits own' level p a i e
Fits-keeps own own' zero p a i e kt kd f = (f.0, λ b l o. kd b a i (f.1 b l o))
Fits-keeps own own' (suc level) p a i e kt kd f = (λ b l. kt b level (p * 512 + i) (f.0 b l), f.1)

-- Writing an entry that fits its slot.
pub Owns-write :
    {root : ℕ} {own : Owners} {m : Memory} (pt level p i e : ℕ)
    → Owns root own m
    → own pt ≡ some (table level p)
    → Fits own level p pt i e
    → Owns root own (write_entry pt i e m)
Owns-write {root} {own} {m} pt level p i e w h fits =
    Fits-Owns (write_entry pt i e m) w.root_table entry (rw write-free w.supply)
  where
    entry :
        (a l' p' j : ℕ)
        → own a ≡ some (table l' p')
        → j < 512
        → Fits own l' p' a j ((write_entry pt i e m).tables a j)
    entry a l' p' j g s = elim (eq-or-ne pt a) [
      | inr other ↦ rw (write-read_other pt i e m a j other) (Owns-Fits a l' p' j w g s)
      | inl same ↦ elim (eq-or-ne i j) [
        | inr next_to ↦
            rw (← same, write-read_index pt i e m j next_to) (Owns-Fits pt l' p' j w (rw same g) s)
        | inl here ↦
            let q = slot-level own pt level p l' p' h (rw same g) in
            rw (← same, ← here, write-read_self pt i e m)
              (Fits-at own level p pt i e l' p' pt i e q.0 q.1 refl refl refl fits)
      ]
    ]
