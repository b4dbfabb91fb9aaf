-- ===== src/Vmm/Paging/HandOver.antt =====
-- A page that its caller holds is handed over to the table entry that maps it.
use servos.Prelude.{ℕ, ◌<◌, ◌≡◌, ◌≢◌, ap, some, arith, eq-or-ne, inl, inr}
use servos.Vmm.Memory.{Memory}
use servos.Vmm.Paging.Owner.{
  Owner, table, data_page, held, Owners, Owns, grant, Fits, Fits-Owns, Fits-keeps, Supply-grant,
  NotIn-ne, Owns-Fits,
}

-- The page goes from the caller to the entry that maps it.
module _ (root : ℕ) (own : Owners) (m : Memory) (w : Owns root own m) where
  hand_over :
      (n : ℕ) (o : Owner) (b : ℕ) {r : Owner}
      → own n ≡ some held
      → own b ≡ some r
      → r ≢ held
      → grant own n o b ≡ some r
  hand_over n o b h g ne = elim (eq-or-ne n b) [
    | inl e ↦ absurd (ne (cc (ap own e)))
    | inr other ↦ ground arith
  ]

  table-ne-held : (l q : ℕ) → table l q ≢ held
  table-ne-held l q e = cc

  data-ne-held : (t i : ℕ) → data_page t i ≢ held
  data-ne-held t i e = cc

  pub hand_over-table :
      (n : ℕ) (o : Owner)
      → own n ≡ some held
      → (b l q : ℕ) → own b ≡ some (table l q)
      → grant own n o b ≡ some (table l q)
  hand_over-table n o h b l q g = hand_over n o b h g (table-ne-held l q)

  pub grant-Owns : (n t i : ℕ) → own n ≡ some held → Owns root (grant own n (data_page t i)) m
  grant-Owns n t i h =
      Fits-Owns m (hand_over-table n (data_page t i) h root 2 0 w.root_table) entry
        (Supply-grant own n (data_page t i) m.free (NotIn-ne own n h m.free w.supply) w.supply)
    where
      entry :
          (a l p j : ℕ)
          → grant own n (data_page t i) a ≡ some (table l p)
          → j < 512
          → Fits (grant own n (data_page t i)) l p a j (m.tables a j)
      entry a l p j g s =
          let g' : own a ≡ some (table l p) = ground arith in
          Fits-keeps own (grant own n (data_page t i)) l p a j (m.tables a j)
            (hand_over-table n (data_page t i) h)
            (λ b t' k e. hand_over n (data_page t i) b h e (data-ne-held t' k))
            (Owns-Fits a l p j w g' s)
