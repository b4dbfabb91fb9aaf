-- ===== src/Vmm/Paging/Link.antt =====
-- Linking a new table into a page table changes no lookup.
use servos.Prelude.{
  ℕ, zero, suc, ◌+◌, ◌*◌, ◌≡◌, ◌≢◌, refl, ap, sym, ◌∙◌, some, arith, eq-or-ne, inl, inr,
}
use servos.Vmm.Vaddr.{vpn}
use servos.Vmm.Vaddr.Fields.{vpn-lt}
use servos.Vmm.Pte.{page_table, invalid, next, new_entry}
use servos.Vmm.Pte.Fields.{next-new_entry_table}
use servos.Vmm.Memory.{Memory, write_entry}
use servos.Vmm.Paging.Owner.{
  Owner, table, Owners, Owns, grant, Owns-write, write-read_self, write-read_index,
  write-read_other,
}
use servos.Vmm.Paging.Alloc.{Allocated, next-zero}
use servos.Vmm.Paging.Lookup.{lookup, lookup-link, lookup-invalid, lookup-agree}
use servos.Vmm.Paging.Map.{none-ne, apart, lookup-frame}

lookup-empty : (level n x : ℕ) (m : Memory) → ((i : ℕ) → m.tables n i ≡ 0) → lookup level n x m ≡ 0
unfolding lookup
lookup-empty zero n x m h = h (vpn x 0)
lookup-empty (suc level) n x m h =
    lookup-invalid level n x m (ap next (h (vpn x (suc level))) ∙ next-zero)

-- A table that has just been allocated and linked to changes no lookup.
module _ (root level p pt va n : ℕ) (own : Owners) (m m₁ : Memory) (w : Owns root own m)
    (h : own pt ≡ some (table (suc level) p))
    (missing : next (m.tables pt (vpn va (suc level))) ≡ invalid)
    (new : Allocated root own m n m₁) where
  pub linked : Memory
  linked = write_entry pt (vpn va (suc level)) (new_entry n 0) m₁

  pub owners : Owners
  owners = grant own n (table level (p * 512 + vpn va (suc level)))

  fresh-ne : (a : ℕ) (o : Owner) → own a ≡ some o → n ≢ a
  fresh-ne a o g e = none-ne o (sym new.fresh ∙ (ap own e ∙ g))

  pub owners-grow : (a : ℕ) (o : Owner) → own a ≡ some o → owners a ≡ some o
  unfolding owners
  owners-grow a o g = elim (eq-or-ne n a) [
    | inl eq ↦ absurd (fresh-ne a o g eq)
    | inr ne ↦ ground arith
  ]

  pub owners-new : owners n ≡ some (table level (p * 512 + vpn va (suc level)))
  unfolding owners
  owners-new = ground arith

  pub link-back : next (linked.tables pt (vpn va (suc level))) ≡ page_table n
  unfolding linked
  link-back =
      ap next (write-read_self pt (vpn va (suc level)) (new_entry n 0) m₁)
      ∙ next-new_entry_table n new.aligned.0 new.aligned.1

  pub linked-Owns : Owns root owners linked
  unfolding linked owners
  linked-Owns =
      Owns-write pt (suc level) p (vpn va (suc level)) (new_entry n 0)
        (new.owns (table level (p * 512 + vpn va (suc level))))
        (owners-grow pt (table (suc level) p) h)
        (
          λ b g. ground (arith, next-new_entry_table n new.aligned.0 new.aligned.1),
          λ b g. cc (next-new_entry_table n new.aligned.0 new.aligned.1),
        )

  pub untouched :
      (a l q i : ℕ) → own a ≡ some (table l q) → pt ≢ a → linked.tables a i ≡ m.tables a i
  unfolding linked
  untouched a l q i g ne =
      write-read_other pt (vpn va (suc level)) (new_entry n 0) m₁ a i ne
      ∙ new.keeps a i (fresh-ne a (table l q) g)

  -- tables of this level and below are as they were
  below-lookup :
      (b q x c : ℕ)
      → own b ≡ some (table (suc level) q)
      → next (m.tables b (vpn x (suc level))) ≡ page_table c
      → lookup level c x linked ≡ lookup level c x m
  below-lookup b q x c g l =
      lookup-frame root own m linked w level c (q * 512 + vpn x (suc level)) x
        (w.child b level q (vpn x (suc level)) c g (vpn-lt x (suc level)) l)
        (λ a k r i k' le.
          untouched a k r i k' (apart own pt a (suc level) p k r h k' (λ z _. omega arith)))

  beside-entry :
      (x : ℕ)
      → vpn va (suc level) ≢ vpn x (suc level)
      → linked.tables pt (vpn x (suc level)) ≡ m.tables pt (vpn x (suc level))
  unfolding linked
  beside-entry x ne =
      write-read_index pt (vpn va (suc level)) (new_entry n 0) m₁ (vpn x (suc level)) ne
      ∙ new.keeps pt (vpn x (suc level)) (fresh-ne pt (table (suc level) p) h)

  empty-table : (i : ℕ) → linked.tables n i ≡ 0
  unfolding linked
  empty-table i =
      write-read_other pt (vpn va (suc level)) (new_entry n 0) m₁ n i
        (λ e. fresh-ne pt (table (suc level) p) h (sym e))
      ∙ new.empty i

  pub same-lookup :
      (b q x : ℕ)
      → own b ≡ some (table (suc level) q)
      → lookup (suc level) b x linked ≡ lookup (suc level) b x m
  same-lookup b q x g = elim (eq-or-ne pt b) [
    | inr ne ↦
        lookup-agree level b x m linked (untouched b (suc level) q (vpn x (suc level)) g ne)
          (λ c l. below-lookup b q x c g l)
    | inl eq ↦ rw (← eq) (elim (eq-or-ne (vpn va (suc level)) (vpn x (suc level))) [
      | inr ne ↦
          lookup-agree level pt x m linked (beside-entry x ne) (λ c l. below-lookup pt p x c h l)
      | inl here ↦
          lookup-link level pt x linked n (rw here at link-back)
          ∙ (lookup-empty level n x linked empty-table
              ∙ sym (lookup-invalid level pt x m (rw here at missing)))
    ])
  ]

  pub lookup-new : lookup level n va linked ≡ lookup (suc level) pt va m
  lookup-new = sym (lookup-link level pt va linked n link-back) ∙ same-lookup pt p va h

  pub linked-eq : linked ≡ write_entry pt (vpn va (suc level)) (new_entry n 0) m₁
  unfolding linked
  linked-eq = refl
