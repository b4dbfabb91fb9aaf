-- ===== src/Vmm/Paging/Unmap.antt =====
-- `unmap_page` takes one page out of the view of a page table, and gives it back if the table
-- owned it.
use servos.Prelude.{
  ℕ, zero, suc, ◌+◌, ◌*◌, ◌<◌, ◌≡◌, ◌≢◌, refl, ap, sym, ◌∙◌, Bool, true, false, ◌&&◌, none, some,
  List, [], ◌∷◌, ◌==◌, if◌then◌else◌, arith, eq-or-ne, Bool-cases, inl, inr, ◌⊎◌,
}
use servos.Prelude.Outcome.{done}
use servos.Vmm.Vaddr.{vpn}
use servos.Vmm.Vaddr.Fields.{vpn-lt}
use servos.Vmm.Pte.{PteLink, leaf, page_table, invalid, next, is_owned}
use servos.Vmm.Memory.{Memory, write_entry, free_page}
use servos.Vmm.Translate.{to_phys, to_phys_walk}
use servos.Vmm.Paging.{unmap_walk, unmap_page}
use servos.Vmm.Paging.Owner.{
  Owner, table, data_page, Owners, IsPage, Supply, Owns, Fits, Owns-Fits, Fits-Owns, Owns-write,
  NotIn-ne, write-read_self, write-read_index, write-read_other,
}
use servos.Vmm.Paging.Alloc.{next-zero, Fits-empty}
use servos.Vmm.Paging.Lookup.{lookup, same_page, lookup-link, lookup-invalid}
use servos.Vmm.Paging.Map.{Mapped, map-link, written-Mapped, unchanged}
use servos.Vmm.Paging.MapLaws.{phys_of, phys_of-zero, to_phys-lookup}

-- a leaf of the last level points to a page
next-leaf-IsPage : (e a : ℕ) → next e ≡ leaf a → IsPage a
unfolding next
next-leaf-IsPage e a h = ground arith

abbrev revoke : Owners → ℕ → Owners
revoke own a b = if a == b then none else own b

Supply-revoke : (own : Owners) (a : ℕ) (l : List ℕ) → Supply own l → Supply (revoke own a) l
Supply-revoke own a [] s = tt
Supply-revoke own a (b ∷ bs) s = (ground arith, s.1, s.2, Supply-revoke own a bs s.3)

revoke-other :
    (own : Owners) (a b : ℕ) {o : Owner} → a ≢ b → own b ≡ some o → revoke own a b ≡ some o
revoke-other own a b ne h = ground arith

-- A page that an entry owned is free once the entry is empty.
module _ (root : ℕ) (own : Owners) (m : Memory) (w : Owns root own m) (p pt i a : ℕ)
    (h : own pt ≡ some (table zero p)) (lt : i < 512) (l : next (m.tables pt i) ≡ leaf a)
    (o : is_owned (m.tables pt i) ≡ true) where
  owner : own a ≡ some (data_page pt i)
  owner = w.owned_leaf pt p i a h lt l o

  revoke-table : (b k q : ℕ) → own b ≡ some (table k q) → revoke own a b ≡ some (table k q)
  revoke-table b k q g = revoke-other own a b (λ e. cc (ap own e, owner)) g

  abbrev freed : Memory
  freed = write_entry pt i 0 (free_page a m)

  Fits-revoked :
      (k q t j e : ℕ) → (pt ≡ t → i ≡ j → ⊥) → Fits own k q t j e → Fits (revoke own a) k q t j e
  Fits-revoked zero q t j e ne f = (
    f.0,
    λ b l' o'.
        revoke-other own a b
          (λ z. ne (cc (ap own z, f.1 b l' o', owner)) (cc (ap own z, f.1 b l' o', owner)))
          (f.1 b l' o'),
  )
  Fits-revoked (suc k) q t j e ne f = (λ b l'. revoke-table b k (q * 512 + j) (f.0 b l'), f.1)

  freed-tables : (t j : ℕ) → (pt ≡ t → i ≡ j → ⊥) → freed.tables t j ≡ m.tables t j
  unfolding free_page
  freed-tables t j ne = elim (eq-or-ne pt t) [
    | inr other ↦ write-read_other pt i 0 (free_page a m) t j other
    | inl same ↦ rw (← same) (write-read_index pt i 0 (free_page a m) j (ne same))
  ]

  freed-entry : freed.tables pt i ≡ 0
  freed-entry = write-read_self pt i 0 (free_page a m)

  freed-free : freed.free ≡ a ∷ m.free
  unfolding write_entry free_page
  freed-free = refl

  revoked : revoke own a a ≡ none
  revoked = ground arith

  freed-Owns : Owns root (revoke own a) freed
  freed-Owns = Fits-Owns freed (revoke-table root 2 0 w.root_table) entry supply
    where
      supply : Supply (revoke own a) freed.free
      supply = rw freed-free (
        revoked,
        next-leaf-IsPage (m.tables pt i) a l,
        NotIn-ne own a owner m.free w.supply,
        Supply-revoke own a m.free w.supply,
      )

      entry :
          (t k q j : ℕ)
          → revoke own a t ≡ some (table k q)
          → j < 512
          → Fits (revoke own a) k q t j (freed.tables t j)
      entry t k q j g s =
          let g' : own t ≡ some (table k q) = ground arith in
          elim (eq-or-ne pt t) [
            | inr ne ↦ old (λ e _. ne e) g' s
            | inl same ↦ elim (eq-or-ne i j) [
              | inr ne ↦ old (λ _ e. ne e) g' s
              | inl here ↦
                  Fits-empty (revoke own a) k q t j (freed.tables t j)
                    (rw (← same, ← here) freed-entry)
            ]
          ]
        where
          old :
              (pt ≡ t → i ≡ j → ⊥)
              → own t ≡ some (table k q)
              → j < 512
              → Fits (revoke own a) k q t j (freed.tables t j)
          old ne g s =
              rw (freed-tables t j ne)
                (Fits-revoked k q t j (m.tables t j) ne (Owns-Fits t k q j w g s))

module _ (root va : ℕ) where
  -- What unmapping below a table comes to: the word at the page of `va` is cleared if it was a leaf.
  abbrev Unmapped : ℕ → ℕ → ℕ → Owners → Memory → Type 0
  Unmapped level p pt own m =
      (found : Bool) × (m' : Memory) × (own' : Owners) × (unmap_walk level pt va m
        ≡ done (found, m'))
      × Mapped root level p pt va 0 own own' m found m'
      × (found ≡ false → next (lookup level pt va m) ≡ invalid)

  unmap-zero :
      (p pt : ℕ) (own : Owners) (m : Memory)
      → Owns root own m
      → own pt ≡ some (table zero p)
      → Unmapped zero p pt own m
  unfolding unmap_walk lookup free_page
  unmap-zero p pt own m w h = go (next (m.tables pt i)) refl (Bool-cases (is_owned (m.tables pt i)))
    where
      i : ℕ
      i = vpn va 0

      go :
          (l : PteLink)
          → next (m.tables pt i) ≡ l
          → (is_owned (m.tables pt i) ≡ true) ⊎ (is_owned (m.tables pt i) ≡ false)
          → Unmapped zero p pt own m
      go (page_table b) l o = absurd (w.no_link_below pt p i b h (vpn-lt va 0) l)
      go invalid l o = (false, m, own, ground arith, unchanged root zero p pt va 0 own m w, λ e. l)
      go (leaf a) l (inr o) = (
        true,
        write_entry pt i 0 m,
        own,
        ground arith,
        written-Mapped root p pt va 0 own own m m h (λ b k q g. g) (λ b j. refl)
            (Owns-write pt zero p i 0 w h (Fits-empty own zero p pt i 0 refl)),
        λ e. cc,
      )
      go (leaf a) l (inl o) = (
        true,
        write_entry pt i 0 (free_page a m),
        revoke own a,
        ground arith,
        written-Mapped root p pt va 0 own (revoke own a) m (free_page a m) h
            (revoke-table root own m w p pt i a h (vpn-lt va 0) l o) (λ b j. refl)
            (freed-Owns root own m w p pt i a h (vpn-lt va 0) l o),
        λ e. cc,
      )

  unmap-suc :
      (level p pt : ℕ) (own : Owners) (m : Memory)
      → Owns root own m
      → own pt ≡ some (table (suc level) p)
      → ((q b : ℕ) → own b ≡ some (table level q) → Unmapped level q b own m)
      → Unmapped (suc level) p pt own m
  unfolding unmap_walk
  unmap-suc level p pt own m w h ih = go (next (m.tables pt (vpn va (suc level)))) refl
    where
      go :
          (l : PteLink)
          → next (m.tables pt (vpn va (suc level))) ≡ l
          → Unmapped (suc level) p pt own m
      go (leaf a) l =
          absurd (w.no_large_leaf pt level p (vpn va (suc level)) a h (vpn-lt va (suc level)) l)
      go invalid l = (
        false,
        m,
        own,
        ground arith,
        unchanged root (suc level) p pt va 0 own m w,
        λ e. ap next (lookup-invalid level pt va m l) ∙ next-zero,
      )
      go (page_table n) l =
          let r =
            ih (p * 512 + vpn va (suc level)) n
              (w.child pt level p (vpn va (suc level)) n h (vpn-lt va (suc level)) l) in
          (
            r.0,
            r.1,
            r.2,
            ground (arith, r.3),
            map-link root level p pt n va 0 own r.2 m r.0 r.1 w h l r.4,
            λ e. ap next (lookup-link level pt va m n l) ∙ r.5 e,
          )

  unmap_walk-Mapped :
      (level p pt : ℕ) (own : Owners) (m : Memory)
      → Owns root own m
      → own pt ≡ some (table level p)
      → Unmapped level p pt own m
  unmap_walk-Mapped zero p pt own m w h = unmap-zero p pt own m w h
  unmap_walk-Mapped (suc level) p pt own m w h =
      unmap-suc level p pt own m w h (λ q b g. unmap_walk-Mapped level q b own m w g)

-- Unmapping always returns. When it says `true` the addresses of the page translate to nothing any
-- more; `false` is said only of a page that was not mapped, and then nothing changes. All other
-- addresses translate as before, and the tables are still owned each by one entry, so that no page
-- is freed twice.
pub unmap_page-to_phys :
    (root : ℕ) (own : Owners) (m : Memory) (va : ℕ)
    → Owns root own m
    → (found : Bool) × (m' : Memory) × (own' : Owners) × (unmap_page root va m ≡ done (found, m'))
      × Owns root own' m'
      × ((found ≡ true) ⊎ (next (lookup 2 root va m) ≡ invalid))
      × ((x req : ℕ)
          → to_phys root x req m'
            ≡ (if found && same_page 2 va x then none else to_phys root x req m))
unfolding unmap_page to_phys
unmap_page-to_phys root own m va w =
    let r = unmap_walk-Mapped root va 2 0 root own m w w.root_table in
    (
      r.0,
      r.1,
      r.2,
      r.3,
      r.4.owns,
      found_or r.0 r.5,
      λ x req.
          to_phys-lookup root r.2 r.1 r.4.owns 2 0 root x req r.4.owns.root_table
          ∙ (ap (λ (e : ℕ). phys_of e x req) (r.4.here x) ∙ rest x req (r.0 && same_page 2 va x)),
    )
  where
    found_or :
        (b : Bool)
        → (b ≡ false → next (lookup 2 root va m) ≡ invalid)
        → (b ≡ true) ⊎ (next (lookup 2 root va m) ≡ invalid)
    found_or true f = inl refl
    found_or false f = inr (f refl)

    rest :
        (x req : ℕ) (b : Bool)
        → phys_of (if b then 0 else lookup 2 root x m) x req
          ≡ (if b then none else to_phys_walk 2 root x req m)
    rest x req true = phys_of-zero x req
    rest x req false = sym (to_phys-lookup root own m w 2 0 root x req w.root_table)
