-- ===== src/Vmm/Paging/Map.antt =====
-- `map_page_raw` adds one page to the view of a page table and keeps the ownership.
use servos.Prelude.{
  ℕ, zero, suc, ◌+◌, ◌*◌, ◌<◌, ◌≤◌, ◌≡◌, refl, ◌≢◌, ap, sym, ◌∙◌, Bool, true, false, ◌&&◌, none,
  some, if◌then◌else◌, arith, eq-or-ne, inl, inr,
}
use servos.Vmm.Vaddr.{vpn}
use servos.Vmm.Vaddr.Fields.{vpn-lt}
use servos.Vmm.Pte.{page_table, next}
use servos.Vmm.Memory.{Memory, write_entry}
use servos.Vmm.Paging.Owner.{
  Owner, table, Owners, Owns, Fits, Owns-write, slot-injective, write-read_self, write-read_index,
  write-read_other,
}
use servos.Vmm.Paging.Lookup.{
  lookup, same_page, lookup-link, lookup-agree, same_page-eq, same_page-ne,
}

-- What a call for the table `pt` of a level, at a prefix, makes of the memory. With `ok` the view
-- below `pt` has the word `e` at the page of `va`, and is otherwise as it was.
pub record Mapped (root : ℕ) (level p pt va e : ℕ) (own own' : Owners) (m : Memory) (ok : Bool)
    (m' : Memory) : Type 0 where
  pub owns : Owns root own' m'
  pub grows : (a l q : ℕ) → own a ≡ some (table l q) → own' a ≡ some (table l q)
  pub above : (a l q i : ℕ) → own a ≡ some (table l q) → level < l → m'.tables a i ≡ m.tables a i
  pub beside :
      (b q w : ℕ) → own b ≡ some (table level q) → q ≢ p → lookup level b w m' ≡ lookup level b w m
  pub here :
      (w : ℕ)
      → lookup level pt w m' ≡ (if ok && same_page level va w then e else lookup level pt w m)

pub none-ne : (o : Owner) → none ≢ some o
none-ne o e = cc

-- Tables of different levels are different.
pub apart :
    (own : Owners) (a b l q k r : ℕ)
    → own a ≡ some (table l q)
    → own b ≡ some (table k r)
    → (l ≡ k → q ≡ r → ⊥)
    → a ≢ b
apart own a b l q k r h g ne e = ne (cc (ap own e)) (cc (ap own e))

unused : (ok : Bool) (e u : ℕ) → u ≡ (if ok && false then e else u)
unused ok e u = ground arith

module _ (root : ℕ) where
  -- The write at level 0, into a memory with the same tables.
  pub written-Mapped :
      (p pt va e : ℕ) (own own' : Owners) (m m₁ : Memory)
      → own pt ≡ some (table zero p)
      → ((b l q : ℕ) → own b ≡ some (table l q) → own' b ≡ some (table l q))
      → ((b j : ℕ) → m₁.tables b j ≡ m.tables b j)
      → Owns root own' (write_entry pt (vpn va 0) e m₁)
      → Mapped root zero p pt va e own own' m true (write_entry pt (vpn va 0) e m₁)
  unfolding lookup same_page
  written-Mapped p pt va e own own' m m₁ h grows same w' = record {
    owns = w';
    grows = grows;
    above = λ a l q i g lt.
        write-read_other pt (vpn va 0) e m₁ a i (apart own pt a zero p l q h g (λ z _. omega arith))
        ∙ same a i;
    beside = λ b q x g ne.
        write-read_other pt (vpn va 0) e m₁ b (vpn x 0)
          (apart own pt b zero p zero q h g (λ _ z. ne (sym z)))
        ∙ same b (vpn x 0);
    here = λ x. ground (
      arith,
      write-read_self pt (vpn va 0) e m₁,
      write-read_index pt (vpn va 0) e m₁ (vpn x 0),
      same pt (vpn x 0),
    );
  }

  -- The write at level 0 of an entry that fits once its page has a new owner.
  pub map-entry :
      (p pt va e : ℕ) (own own' : Owners) (m : Memory)
      → own pt ≡ some (table zero p)
      → ((b l q : ℕ) → own b ≡ some (table l q) → own' b ≡ some (table l q))
      → Owns root own' m
      → Fits own' zero p pt (vpn va 0) e
      → Mapped root zero p pt va e own own' m true (write_entry pt (vpn va 0) e m)
  map-entry p pt va e own own' m h grows w' fits =
      written-Mapped p pt va e own own' m m h grows (λ b j. refl)
        (Owns-write pt zero p (vpn va 0) e w' (grows pt zero p h) fits)

  -- Nothing is written.
  pub unchanged :
      (level p pt va e : ℕ) (own : Owners) (m : Memory)
      → Owns root own m
      → Mapped root level p pt va e own own m false m
  unchanged level p pt va e own m w = record {
    owns = w;
    grows = λ a l q g. g;
    above = λ a l q i g lt. refl;
    beside = λ b q x g ne. refl;
    here = λ x. refl;
  }

  -- One level up: the way goes on through the table that the entry links to.
  pub map-link :
      (level p pt n va e : ℕ) (own own' : Owners) (m : Memory) (ok : Bool) (m' : Memory)
      → Owns root own m
      → own pt ≡ some (table (suc level) p)
      → next (m.tables pt (vpn va (suc level))) ≡ page_table n
      → Mapped root level (p * 512 + vpn va (suc level)) n va e own own' m ok m'
      → Mapped root (suc level) p pt va e own own' m ok m'
  map-link level p pt n va e own own' m ok m' w h link r = record {
    owns = r.owns;
    grows = r.grows;
    above = λ a l q i g lt. r.above a l q i g (omega arith);
    beside = λ b q x g ne.
        lookup-agree level b x m m' (r.above b (suc level) q (vpn x (suc level)) g (omega arith))
          (below b q x g (λ z _. ne z));
    here = here';
  }
    where
      i : ℕ
      i = vpn va (suc level)

      below :
          (b q x : ℕ)
          → own b ≡ some (table (suc level) q)
          → (q ≡ p → vpn x (suc level) ≡ i → ⊥)
          → (c : ℕ) → next (m.tables b (vpn x (suc level))) ≡ page_table c
          → lookup level c x m' ≡ lookup level c x m
      below b q x g ne c l =
          r.beside c (q * 512 + vpn x (suc level)) x
            (w.child b level q (vpn x (suc level)) c g (vpn-lt x (suc level)) l)
            (λ z.
              let s =
                slot-injective q (vpn x (suc level)) p i (vpn-lt x (suc level))
                  (vpn-lt va (suc level)) z in
              ne s.0 s.1)

      kept : (x : ℕ) → m'.tables pt (vpn x (suc level)) ≡ m.tables pt (vpn x (suc level))
      kept x = r.above pt (suc level) p (vpn x (suc level)) h (omega arith)

      here' :
          (x : ℕ)
          → lookup (suc level) pt x m'
            ≡ (if ok && same_page (suc level) va x then e else lookup (suc level) pt x m)
      here' x = elim (eq-or-ne i (vpn x (suc level))) [
        | inl eq ↦
            let l : next (m.tables pt (vpn x (suc level))) ≡ page_table n = rw (← eq) link in
            rw
              (
                same_page-eq level va x eq,
                lookup-link level pt x m n l,
                lookup-link level pt x m' n (ap next (kept x) ∙ l),
              )
              (r.here x)
        | inr ne ↦ rw (same_page-ne level va x ne) (
            lookup-agree level pt x m m' (kept x) (below pt p x h (λ _ z. ne (sym z)))
            ∙ unused ok e (lookup (suc level) pt x m))
      ]

-- A change of other tables is not seen by a lookup.
pub lookup-frame :
    (root : ℕ) (own : Owners) (m m' : Memory)
    → Owns root own m
    → (level b q x : ℕ) → own b ≡ some (table level q)
    → ((a l r i : ℕ) → own a ≡ some (table l r) → l ≤ level → m'.tables a i ≡ m.tables a i)
    → lookup level b x m' ≡ lookup level b x m
unfolding lookup
lookup-frame root own m m' w zero b q x h same = same b zero q (vpn x 0) h (omega arith)
lookup-frame root own m m' w (suc level) b q x h same =
    lookup-agree level b x m m' (same b (suc level) q (vpn x (suc level)) h (omega arith)) (λ c l.
      lookup-frame root own m m' w level c (q * 512 + vpn x (suc level)) x
        (w.child b level q (vpn x (suc level)) c h (vpn-lt x (suc level)) l)
        (λ a k r i g le. same a k r i g (omega arith)))

-- A walk that starts from a view equal to that of `m` ends in a view over `m`.
pub Mapped-from :
    (root level p pt va e : ℕ) (own own₁ own' : Owners) (m m₁ : Memory) (ok : Bool) (m' : Memory)
    → own pt ≡ some (table level p)
    → ((a : ℕ) (o : Owner) → own a ≡ some o → own₁ a ≡ some o)
    → ((a l q i : ℕ) → own a ≡ some (table l q) → level < l → m₁.tables a i ≡ m.tables a i)
    → ((b q x : ℕ) → own b ≡ some (table level q) → lookup level b x m₁ ≡ lookup level b x m)
    → Mapped root level p pt va e own₁ own' m₁ ok m'
    → Mapped root level p pt va e own own' m ok m'
Mapped-from root level p pt va e own own₁ own' m m₁ ok m' h grows above view r = record {
  owns = r.owns;
  grows = λ a l q g. r.grows a l q (grows a (table l q) g);
  above = λ a l q i g lt. r.above a l q i (grows a (table l q) g) lt ∙ above a l q i g lt;
  beside = λ b q x g ne. r.beside b q x (grows b (table level q) g) ne ∙ view b q x g;
  here = λ x. rw (← view pt p x h) (r.here x);
}
