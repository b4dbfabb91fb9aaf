-- ===== src/Vmm/Paging/MapLaws.antt =====
-- What `map_page_raw` promises, in terms of what addresses translate to afterwards.
use servos.Prelude.{
  ℕ, zero, suc, ◌+◌, ◌*◌, ◌/◌, ◌<◌, ◌^◌, ◌≡◌, ◌≢◌, refl, ap, sym, ◌∙◌, Bool, true, false, Option,
  ◌&&◌, none, some, if◌then◌else◌, arith, bit_or,
}
use servos.Prelude.Outcome.{done, panic}
use servos.Vmm.Vaddr.{vpn, offset}
use servos.Vmm.Vaddr.Fields.{vpn-lt}
use servos.Vmm.Pte.{PteLink, leaf, page_table, invalid, next, perms, contains, intersects}
use servos.Vmm.Pte.Flag
use servos.Vmm.Pte.Fields.{next-new_entry_leaf, rwx-or_above}
use servos.Vmm.Memory.{Memory}
use servos.Vmm.Translate.{to_phys_walk, to_phys}
use servos.Vmm.Paging.{map_walk, map_page_raw}
use servos.Vmm.Paging.Owner.{table, Owners, Owns}
use servos.Vmm.Paging.Alloc.{next-zero}
use servos.Vmm.Paging.Lookup.{lookup, same_page, lookup-link, lookup-invalid}
use servos.Vmm.Paging.Walk.{map_walk-Mapped, leaf_entry, FitsPage}

-- what an entry of the last level says of an address
unfoldable pub phys_of : ℕ → ℕ → ℕ → Option ℕ
phys_of e va req = elim (next e) [
  | page_table n ↦ none
  | leaf a ↦ if contains (perms e) req then some (a + offset va 0) else none
  | invalid ↦ none
]

pub phys_of-zero : (va req : ℕ) → phys_of 0 va req ≡ none
unfolding phys_of
phys_of-zero va req = ground (arith, next-zero)

-- Translation reads the view, and nothing else.
pub to_phys-lookup :
    (root : ℕ) (own : Owners) (m : Memory)
    → Owns root own m
    → (level p pt va req : ℕ) → own pt ≡ some (table level p)
    → to_phys_walk level pt va req m ≡ phys_of (lookup level pt va m) va req
unfolding to_phys_walk lookup phys_of
to_phys-lookup root own m w zero p pt va req h = refl
to_phys-lookup root own m w (suc level) p pt va req h =
    go (next (m.tables pt (vpn va (suc level)))) refl (λ n l.
      to_phys-lookup root own m w level (p * 512 + vpn va (suc level)) n va req
        (w.child pt level p (vpn va (suc level)) n h (vpn-lt va (suc level)) l))
  where
    go :
        (l : PteLink)
        → next (m.tables pt (vpn va (suc level))) ≡ l
        → ((n : ℕ)
            → next (m.tables pt (vpn va (suc level))) ≡ page_table n
            → to_phys_walk level n va req m ≡ phys_of (lookup level n va m) va req)
        → to_phys_walk (suc level) pt va req m ≡ phys_of (lookup (suc level) pt va m) va req
    go (page_table n) l ih = ground (arith, ih n l)
    go (leaf b) l ih =
        absurd (w.no_large_leaf pt level p (vpn va (suc level)) b h (vpn-lt va (suc level)) l)
    go invalid l ih = ground (arith, phys_of-zero va req)

-- The entry for a page that may be read, written or executed is a leaf of that page.
leaf_entry-next :
    (pa q : ℕ)
    → pa < 2 ^ 64
    → intersects q Flag.rwx ≡ true
    → next (leaf_entry pa q) ≡ leaf (pa / 4096 * 4096)
leaf_entry-next pa q small h =
    next-new_entry_leaf pa (bit_or (bit_or q Flag.d) Flag.a) small
      (rwx-or_above (bit_or q Flag.d) 4 ∙ (rwx-or_above q 8 ∙ h))

phys_of-leaf :
    (e a va req : ℕ)
    → next e ≡ leaf a
    → phys_of e va req ≡ (if contains (perms e) req then some (a + offset va 0) else none)
unfolding phys_of
phys_of-leaf e a va req h = ground arith

module _ (root : ℕ) (own : Owners) (m : Memory) (w : Owns root own m) (pa va q : ℕ) where
  -- Mapping a page that is not mapped yet returns, whatever memory is left. When it says `true`,
  -- the addresses of that page translate to the physical page if the permissions asked for are
  -- granted; when it says `false`, no address does anything else than before. All other addresses
  -- translate as before, and the tables are still owned each by one entry.
  pub map_page_raw-to_phys :
      next (lookup 2 root va m) ≡ invalid
      → pa < 2 ^ 64
      → intersects q Flag.rwx ≡ true
      → FitsPage own (leaf_entry pa q)
      → (ok : Bool) × (m' : Memory) × (own' : Owners) × (map_page_raw root pa va q m
          ≡ done (ok, m'))
        × Owns root own' m'
        × ((x req : ℕ)
            → to_phys root x req m' ≡ (
                if ok && same_page 2 va x
                then (if contains (perms (leaf_entry pa q)) req
                    then some (pa / 4096 * 4096 + offset x 0)
                    else none)
                else to_phys root x req m))
  unfolding map_page_raw to_phys
  map_page_raw-to_phys free small rwx fits =
      let r = map_walk-Mapped root pa q 2 0 root va own m w w.root_table free fits in
      (
        r.0,
        r.1,
        r.2,
        r.3,
        r.4.owns,
        λ x req.
            to_phys-lookup root r.2 r.1 r.4.owns 2 0 root x req r.4.owns.root_table
            ∙ (ap (λ (e : ℕ). phys_of e x req) (r.4.here x) ∙ rest x req (r.0 && same_page 2 va x)),
      )
    where
      rest :
          (x req : ℕ) (b : Bool)
          → phys_of (if b then leaf_entry pa q else lookup 2 root x m) x req ≡ (
              if b
              then (if contains (perms (leaf_entry pa q)) req
                  then some (pa / 4096 * 4096 + offset x 0)
                  else none)
              else to_phys_walk 2 root x req m)
      rest x req true =
          phys_of-leaf (leaf_entry pa q) (pa / 4096 * 4096) x req (leaf_entry-next pa q small rwx)
      rest x req false = sym (to_phys-lookup root own m w 2 0 root x req w.root_table)

-- Mapping a page over one that is mapped is the panic of the source's assertion.
map_walk-remap :
    (root : ℕ) (own : Owners) (m : Memory)
    → Owns root own m
    → (pa q level p pt va : ℕ) → own pt ≡ some (table level p)
    → next (lookup level pt va m) ≢ invalid
    → map_walk level pt pa va q m ≡ panic
unfolding map_walk lookup
map_walk-remap root own m w pa q zero p pt va h used = ground arith
map_walk-remap root own m w pa q (suc level) p pt va h used =
    go (next (m.tables pt (vpn va (suc level)))) refl (λ n l e.
      map_walk-remap root own m w pa q level (p * 512 + vpn va (suc level)) n va
        (w.child pt level p (vpn va (suc level)) n h (vpn-lt va (suc level)) l) (λ z. e z))
  where
    go :
        (l : PteLink)
        → next (m.tables pt (vpn va (suc level))) ≡ l
        → ((n : ℕ)
            → next (m.tables pt (vpn va (suc level))) ≡ page_table n
            → next (lookup level n va m) ≢ invalid
            → map_walk level n pa va q m ≡ panic)
        → map_walk (suc level) pt pa va q m ≡ panic
    go (page_table n) l ih =
        ground (arith, ih n l (λ z. used (ap next (lookup-link level pt va m n l) ∙ z)))
    go (leaf b) l ih = ground arith
    go invalid l ih = absurd (used (ap next (lookup-invalid level pt va m l) ∙ next-zero))

pub map_page_raw-remap :
    (root : ℕ) (own : Owners) (m : Memory) (pa va q : ℕ)
    → Owns root own m
    → next (lookup 2 root va m) ≢ invalid
    → map_page_raw root pa va q m ≡ panic
unfolding map_page_raw
map_page_raw-remap root own m pa va q w used =
    map_walk-remap root own m w pa q 2 0 root va w.root_table used
