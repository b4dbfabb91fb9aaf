-- ===== src/Vmm/Paging/Walk.antt =====
-- `map_page_raw` returns, and adds one page to the view of a page table.
use servos.Prelude.{
  ℕ, bit_or, zero, suc, ◌+◌, ◌*◌, ◌≡◌, ◌≢◌, refl, Bool, true, false, none, some, arith, inl, inr,
  ◌⊎◌, Option-cases, Bool-cases,
}
use servos.Prelude.Outcome.{done}
use servos.Vmm.Vaddr.{vpn}
use servos.Vmm.Vaddr.Fields.{vpn-lt}
use servos.Vmm.Pte.{PteLink, leaf, page_table, invalid, next, new_entry, is_owned}
use servos.Vmm.Pte.Flag
use servos.Vmm.Memory.{Memory, try_alloc, write_entry}
use servos.Vmm.Paging.{map_walk}
use servos.Vmm.Paging.Owner.{Owner, table, data_page, held, Owners, Owns, grant}
use servos.Vmm.Paging.Alloc.{Allocated, try_alloc-Allocated}
use servos.Vmm.Paging.Lookup.{lookup, lookup-link}
use servos.Vmm.Paging.HandOver.{hand_over-table, grant-Owns}
use servos.Vmm.Paging.Map.{Mapped, map-entry, unchanged, map-link, Mapped-from, apart}
use servos.Vmm.Paging.Link.{
  owners-new, lookup-new, linked-eq, linked, owners, owners-grow, link-back, linked-Owns, untouched,
  same-lookup,
}

abbrev pub leaf_entry : ℕ → ℕ → ℕ
leaf_entry pa perms = new_entry pa (bit_or (bit_or perms Flag.d) Flag.a)

-- What the caller answers for: the entry is a leaf, and the caller holds a page that is to be
-- owned by the table.
abbrev pub FitsPage : Owners → ℕ → Type 0
FitsPage own e =
    ((b : ℕ) → next e ≢ page_table b)
    × ((b : ℕ) → next e ≡ leaf b → is_owned e ≡ true → own b ≡ some held)

module _ (root pa perms : ℕ) where
  abbrev pub Walked : ℕ → ℕ → ℕ → ℕ → Owners → Memory → Type 0
  Walked level p pt va own m =
      (ok : Bool) × (m' : Memory) × (own' : Owners) × (map_walk level pt pa va perms m
        ≡ done (ok, m'))
      × Mapped root level p pt va (leaf_entry pa perms) own own' m ok m'

  -- the last step, with the page handed over if the table is to own it
  map-owned :
      (p pt va : ℕ) (own : Owners) (m : Memory)
      → Owns root own m
      → own pt ≡ some (table zero p)
      → FitsPage own (leaf_entry pa perms)
      → (own' : Owners) × Mapped root zero p pt va
          (leaf_entry pa perms)
          own
          own'
          m
          true
          (write_entry pt (vpn va 0) (leaf_entry pa perms) m)
  map-owned p pt va own m w h fits =
      go (next (leaf_entry pa perms)) refl (Bool-cases (is_owned (leaf_entry pa perms)))
    where
      e : ℕ
      e = leaf_entry pa perms

      same :
          ((b : ℕ) → next e ≡ leaf b → is_owned e ≡ true → own b ≡ some (data_page pt (vpn va 0)))
          → Mapped root zero p pt va e own own m true (write_entry pt (vpn va 0) e m)
      same f = map-entry root p pt va e own own m h (λ b l q g. g) w (fits.0, f)

      go :
          (l : PteLink)
          → next e ≡ l
          → (is_owned e ≡ true) ⊎ (is_owned e ≡ false)
          → (own' : Owners) × Mapped root zero p pt va e own own' m true
              (write_entry pt (vpn va 0) e m)
      go (page_table b) l o = absurd (fits.0 b l)
      go invalid l o = (own, same (λ b l' o'. cc))
      go (leaf b) l (inr o) = (own, same (λ b' l' o'. cc))
      go (leaf b) l (inl o) =
          let d : Owner = data_page pt (vpn va 0) in
          let k = fits.1 b l o in
          (
            grant own b d,
            map-entry root p pt va e own (grant own b d) m h (hand_over-table root own m w b d k)
                (grant-Owns root own m w b pt (vpn va 0) k) (fits.0, λ b' l' o'. ground arith),
          )

  abbrev WalksAt : ℕ → ℕ → Type 0
  WalksAt level va =
      (p pt : ℕ) (own : Owners) (m : Memory)
      → Owns root own m
      → own pt ≡ some (table level p)
      → next (lookup level pt va m) ≡ invalid
      → FitsPage own (leaf_entry pa perms)
      → Walked level p pt va own m

  module _ (level p pt va : ℕ) (own : Owners) (m : Memory) (w : Owns root own m)
      (h : own pt ≡ some (table (suc level) p)) (free : next (lookup (suc level) pt va m) ≡ invalid)
      (fits : FitsPage own (leaf_entry pa perms)) (ih : WalksAt level va) where
    through-link :
        (n : ℕ)
        → next (m.tables pt (vpn va (suc level))) ≡ page_table n
        → Walked (suc level) p pt va own m
    unfolding map_walk
    through-link n l =
        let below =
          ih (p * 512 + vpn va (suc level)) n own m w
            (w.child pt level p (vpn va (suc level)) n h (vpn-lt va (suc level)) l)
            (rw (← lookup-link level pt va m n l) free) fits in
        (
          below.0,
          below.1,
          below.2,
          ground (arith, below.3),
          map-link root level p pt n va (leaf_entry pa perms) own below.2 m below.0 below.1 w h l
              below.4,
        )

    through-new :
        (n : ℕ) (m₁ : Memory)
        → next (m.tables pt (vpn va (suc level))) ≡ invalid
        → try_alloc m ≡ some (n, m₁)
        → Walked (suc level) p pt va own m
    unfolding map_walk
    through-new n m₁ l a = go (try_alloc-Allocated w a)
      where
        go : Allocated root own m n m₁ → Walked (suc level) p pt va own m
        go new =
            let m₂ = linked root level p pt va n own m m₁ w h l new in
            let own₁ = owners root level p pt va n own m m₁ w h l new in
            let grow = owners-grow root level p pt va n own m m₁ w h l new in
            let w₂ = linked-Owns root level p pt va n own m m₁ w h l new in
            let back = link-back root level p pt va n own m m₁ w h l new in
            let below =
              ih (p * 512 + vpn va (suc level)) n own₁ m₂ w₂
                (owners-new root level p pt va n own m m₁ w h l new)
                (rw (lookup-new root level p pt va n own m m₁ w h l new) free)
                (fits.0, λ b e o. grow b held (fits.1 b e o)) in
            (
              below.0,
              below.1,
              below.2,
              ground (arith, below.3, linked-eq root level p pt va n own m m₁ w h l new),
              Mapped-from root (suc level) p pt va (leaf_entry pa perms) own own₁ below.2 m m₂
                  below.0 below.1 h grow
                  (λ b k q i g lt.
                    untouched root level p pt va n own m m₁ w h l new b k q i g
                      (apart own pt b (suc level) p k q h g (λ z _. omega arith)))
                  (same-lookup root level p pt va n own m m₁ w h l new)
                  (map-link root level p pt n va (leaf_entry pa perms) own₁ below.2 m₂ below.0
                    below.1 w₂ (grow pt (table (suc level) p) h) back below.4),
            )

    no-memory :
        next (m.tables pt (vpn va (suc level))) ≡ invalid
        → try_alloc m ≡ none
        → Walked (suc level) p pt va own m
    unfolding map_walk
    no-memory l a = (
      false,
      m,
      own,
      ground arith,
      unchanged root (suc level) p pt va (leaf_entry pa perms) own m w,
    )

    walk-step :
        (l : PteLink)
        → next (m.tables pt (vpn va (suc level))) ≡ l
        → Walked (suc level) p pt va own m
    walk-step (page_table n) l = through-link n l
    walk-step (leaf b) l =
        absurd (w.no_large_leaf pt level p (vpn va (suc level)) b h (vpn-lt va (suc level)) l)
    walk-step invalid l = elim (Option-cases (try_alloc m)) [
      | inl a ↦ no-memory l a
      | inr ((n, m₁), a) ↦ through-new n m₁ l a
    ]

  pub map_walk-Mapped :
      (level p pt va : ℕ) (own : Owners) (m : Memory)
      → Owns root own m
      → own pt ≡ some (table level p)
      → next (lookup level pt va m) ≡ invalid
      → FitsPage own (leaf_entry pa perms)
      → Walked level p pt va own m
  unfolding map_walk lookup
  map_walk-Mapped zero p pt va own m w h free fits =
      let r = map-owned p pt va own m w h fits in
      (true, write_entry pt (vpn va 0) (leaf_entry pa perms) m, r.0, ground arith, r.1)
  map_walk-Mapped (suc level) p pt va own m w h free fits =
      walk-step level p pt va own m w h free fits
        (λ p' pt' own' m'. map_walk-Mapped level p' pt' va own' m')
        (next (m.tables pt (vpn va (suc level)))) refl
