-- ===== src/Vmm/Paging/Lookup.antt =====
-- The abstract view of a page table: which last-level entry each virtual page has.
use servos.Prelude.{ℕ, zero, suc, ◌≡◌, ◌≢◌, refl, ap, sym, ◌∙◌, Bool, false, ◌&&◌, ◌==◌, arith}
use servos.Vmm.Vaddr.{vpn}
use servos.Vmm.Pte.{PteLink, leaf, page_table, invalid, next}
use servos.Vmm.Memory.{Memory}

-- The word that says what `va` is mapped to, 0 where a table on the way is missing.
unfoldable pub lookup : ℕ → ℕ → ℕ → Memory → ℕ
lookup zero pt va m = m.tables pt (vpn va 0)
lookup (suc level) pt va m = elim (next (m.tables pt (vpn va (suc level)))) [
  | page_table b ↦ lookup level b va m
  | leaf a ↦ 0
  | invalid ↦ 0
]

-- Two addresses take one way through the tables.
unfoldable pub same_page : ℕ → ℕ → ℕ → Bool
same_page zero va va' = vpn va 0 == vpn va' 0
same_page (suc level) va va' = vpn va (suc level) == vpn va' (suc level) && same_page level va va'

module _ (level pt va : ℕ) (m : Memory) where
  pub lookup-link :
      (b : ℕ)
      → next (m.tables pt (vpn va (suc level))) ≡ page_table b
      → lookup (suc level) pt va m ≡ lookup level b va m
  unfolding lookup
  lookup-link b h = ground arith

  pub lookup-invalid :
      next (m.tables pt (vpn va (suc level))) ≡ invalid → lookup (suc level) pt va m ≡ 0
  unfolding lookup
  lookup-invalid h = ground arith

  pub lookup-leaf :
      (a : ℕ) → next (m.tables pt (vpn va (suc level))) ≡ leaf a → lookup (suc level) pt va m ≡ 0
  unfolding lookup
  lookup-leaf a h = ground arith

-- A lookup reads the entry, and then only the table below.
pub lookup-agree :
    (level pt va : ℕ) (m m' : Memory)
    → m'.tables pt (vpn va (suc level)) ≡ m.tables pt (vpn va (suc level))
    → ((b : ℕ)
        → next (m.tables pt (vpn va (suc level))) ≡ page_table b
        → lookup level b va m' ≡ lookup level b va m)
    → lookup (suc level) pt va m' ≡ lookup (suc level) pt va m
lookup-agree level pt va m m' e below = go (next (m.tables pt (vpn va (suc level)))) refl
  where
    go :
        (l : PteLink)
        → next (m.tables pt (vpn va (suc level))) ≡ l
        → lookup (suc level) pt va m' ≡ lookup (suc level) pt va m
    go (page_table b) h =
        lookup-link level pt va m' b (ap next e ∙ h)
        ∙ (below b h ∙ sym (lookup-link level pt va m b h))
    go invalid h =
        lookup-invalid level pt va m' (ap next e ∙ h) ∙ sym (lookup-invalid level pt va m h)
    go (leaf a) h =
        lookup-leaf level pt va m' a (ap next e ∙ h) ∙ sym (lookup-leaf level pt va m a h)

module _ (level va va' : ℕ) where
  pub same_page-eq :
      vpn va (suc level) ≡ vpn va' (suc level)
      → same_page (suc level) va va' ≡ same_page level va va'
  unfolding same_page
  same_page-eq h = ground arith

  pub same_page-ne : vpn va (suc level) ≢ vpn va' (suc level) → same_page (suc level) va va' ≡ false
  unfolding same_page
  same_page-ne h = ground arith
