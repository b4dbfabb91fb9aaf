-- ===== src/Vmm/Paging/Drop/Pages.antt =====
-- The pages that a page table gives back, and that dropping it gives back these.
use servos.Prelude.{
  ℕ, zero, suc, ◌+◌, ◌*◌, ◌<◌, ◌≡◌, refl, ap, sym, ◌∙◌, Option, some, List, [], ◌∷◌, ◌++◌,
  append_assoc, if◌then◌else◌, arith,
}
use servos.Vmm.Pte.{PteLink, leaf, page_table, invalid, next, is_owned}
use servos.Vmm.Memory.{Memory, free_page}
use servos.Vmm.Paging.Owner.{table, Owners, Owns}
use servos.Vmm.Paging.Drop.{◌>>=◌, drop_entry, drop_from, drop_table}

-- what an entry gives back, where a table gives back `below`
unfoldable pub entry_pages : (ℕ → List ℕ) → ℕ → List ℕ
entry_pages below e = elim (next e) [
  | page_table b ↦ b ∷ below b
  | leaf a ↦ if is_owned e then a ∷ [] else []
  | invalid ↦ []
]

-- from the entry `i` on, `n` of them; what is given back last stands first
unfoldable pub pages_from : (ℕ → List ℕ) → (ℕ → ℕ) → ℕ → ℕ → List ℕ
pages_from below entries i zero = []
pages_from below entries i (suc n) =
    pages_from below entries (i + 1) n ++ entry_pages below (entries i)

-- the pages below a table, with as many levels
unfoldable pub pages_of : ℕ → Memory → ℕ → List ℕ
pages_of zero m pt = []
pages_of (suc levels) m pt = pages_from (pages_of levels m) (m.tables pt) 0 512

abbrev pub with_free : List ℕ → Memory → Memory
with_free l m = record m { free = l }

pub PteLink-cases :
    (l : PteLink) (P : Type 0)
    → ((a : ℕ) → l ≡ leaf a → P)
    → ((b : ℕ) → l ≡ page_table b → P)
    → (l ≡ invalid → P)
    → P
PteLink-cases (leaf a) P f g h = f a refl
PteLink-cases (page_table b) P f g h = g b refl
PteLink-cases invalid P f g h = h refl

module _ (d : ℕ → Memory → Option Memory) (below : ℕ → List ℕ) (m : Memory) where
  -- dropping the box of a table gives back its page and those below it
  abbrev pub GivesBack : ℕ → Type 0
  GivesBack b = (f : List ℕ) → d b (with_free f m) ≡ some (with_free ((b ∷ below b) ++ f) m)

  drop_entry-pages :
      (e : ℕ) (f : List ℕ)
      → ((b : ℕ) → next e ≡ page_table b → GivesBack b)
      → drop_entry d e (with_free f m) ≡ some (with_free (entry_pages below e ++ f) m)
  unfolding drop_entry entry_pages free_page
  drop_entry-pages e f h =
      PteLink-cases (next e) _ (λ a q. ground arith) (λ b q. ground (arith, h b q f))
        (λ q. ground arith)

  drop_from-pages :
      (pt i n : ℕ) (f : List ℕ)
      → ((j b : ℕ) → j < i + n → next (m.tables pt j) ≡ page_table b → GivesBack b)
      → drop_from d pt i n (with_free f m)
        ≡ some (with_free (pages_from below (m.tables pt) i n ++ f) m)
  unfolding drop_from pages_from
  drop_from-pages pt i zero f h = refl
  drop_from-pages pt i (suc n) f h =
      ap (λ o. o >>= λ m'. drop_from d pt (i + 1) n m')
        (drop_entry-pages (m.tables pt i) f (λ b. h i b (omega arith)))
      ∙ (drop_from-pages pt (i + 1) n (entry_pages below (m.tables pt i) ++ f)
            (λ j b s. h j b (omega arith))
          ∙ ap (λ l. some (with_free l m))
              (sym (
                append_assoc (pages_from below (m.tables pt) (i + 1) n)
                  (entry_pages below (m.tables pt i)) f)))

-- With a unit of fuel for each level, a table that is owned is dropped.
module _ {root : ℕ} {own : Owners} {m : Memory} (w : Owns root own m) where
  pub drop_table-pages :
      (level p pt : ℕ) (f : List ℕ)
      → own pt ≡ some (table level p)
      → drop_table (suc level) pt (with_free f m)
        ≡ some (with_free (pages_of (suc level) m pt ++ f) m)
  unfolding drop_table pages_of free_page
  drop_table-pages zero p pt f o =
      drop_from-pages (λ a m'. drop_table zero a m' >>= λ m''. some (free_page a m''))
        (pages_of zero m) m pt 0 512 f
        (λ j b s l. absurd (w.no_link_below pt p j b o (omega arith) l))
  drop_table-pages (suc level) p pt f o =
      drop_from-pages (λ a m'. drop_table (suc level) a m' >>= λ m''. some (free_page a m''))
        (pages_of (suc level) m) m pt 0 512 f
        (λ j b s l g.
          ap (λ r. r >>= λ m''. some (free_page b m''))
            (drop_table-pages level (p * 512 + j) b g (w.child pt level p j b o (omega arith) l)))
