-- ===== src/Vmm/Paging/Alloc.antt =====
-- Taking a page for a table keeps the ownership of all others.
use servos.Prelude.{
  ℕ, zero, suc, ◌<◌, ◌≡◌, ◌≢◌, refl, ap, sym, subst, Option, none, some, List, [], ◌∷◌, ◌==◌,
  if◌then◌else◌, arith, eq-or-ne, inl, inr,
}
use servos.Vmm.Pte.{invalid, next}
use servos.Vmm.Memory.{Memory, try_alloc}
use servos.Vmm.Paging.Owner.{
  Owner, table, Owners, IsPage, Supply, Owns, grant, Supply-grant, Fits, Owns-Fits, Fits-Owns,
  Fits-keeps,
}

pub next-zero : next 0 ≡ invalid
unfolding next
next-zero = refl

-- An empty entry fits every slot.
pub Fits-empty : (own : Owners) (level p a i e : ℕ) → e ≡ 0 → Fits own level p a i e
Fits-empty own zero p a i e z = rw z (λ b h. cc next-zero, λ b h. cc next-zero)
Fits-empty own (suc level) p a i e z = rw z (λ b h. cc next-zero, λ b h. cc next-zero)

-- What fits stays fitting when a page that nobody owned gets an owner.
grant-other :
    (own : Owners) (n : ℕ) (o : Owner) (b : ℕ) {r : Owner}
    → own n ≡ none
    → own b ≡ some r
    → grant own n o b ≡ some r
grant-other own n o b h g = elim (eq-or-ne n b) [ inl e ↦ cc (ap own e) | inr ne ↦ ground arith ]

pub record Allocated (root : ℕ) (own : Owners) (m : Memory) (n : ℕ) (m' : Memory) : Type 0 where
  pub fresh : own n ≡ none
  pub aligned : IsPage n
  pub keeps : (a i : ℕ) → n ≢ a → m'.tables a i ≡ m.tables a i
  pub empty : (i : ℕ) → m'.tables n i ≡ 0
  pub owns : (o : Owner) → Owns root (grant own n o) m'

-- the memory after the first free page has become an empty table
abbrev emptied : Memory → ℕ → List ℕ → Memory
emptied m a rest = record m { tables = λ pt i. if a == pt then 0 else m.tables pt i; free = rest }

alloc-first :
    {root : ℕ} {own : Owners} (m : Memory) (a : ℕ) (rest : List ℕ)
    → Owns root own m
    → Supply own (a ∷ rest)
    → Allocated root own m a (emptied m a rest)
alloc-first {root} {own} m a rest w s = record {
  fresh = s.0;
  aligned = s.1;
  keeps = λ b i ne. ground arith;
  empty = λ i. ground arith;
  owns = λ o.
      Fits-Owns (emptied m a rest) (grant-other own a o root s.0 w.root_table) (entry o)
        (Supply-grant own a o rest s.2 s.3);
}
  where
    entry :
        (o : Owner) (b l p j : ℕ)
        → grant own a o b ≡ some (table l p)
        → j < 512
        → Fits (grant own a o) l p b j ((emptied m a rest).tables b j)
    entry o b l p j g h = elim (eq-or-ne a b) [
      | inl same ↦ Fits-empty (grant own a o) l p b j ((emptied m a rest).tables b j) (ground arith)
      | inr other ↦
          let g' : own b ≡ some (table l p) = ground arith in
          let e : (emptied m a rest).tables b j ≡ m.tables b j = ground arith in
          rw e (
            Fits-keeps own (grant own a o) l p b j (m.tables b j)
              (λ c k q k'. grant-other own a o c s.0 k') (λ c k q k'. grant-other own a o c s.0 k')
              (Owns-Fits b l p j w g' h))
    ]

pair-some :
    (a a' : ℕ) (m m' : Memory)
    → ◌≡◌ {A = Option (ℕ × Memory)} (some (a, m)) (some (a', m'))
    → (a ≡ a') × (m ≡ m')
pair-some a a' m m' e = (cc, cc)

try_alloc-first :
    (m : Memory) (l : List ℕ) (n : ℕ) (m' : Memory)
    → m.free ≡ l
    → try_alloc m ≡ some (n, m')
    → (rest : List ℕ) × (m.free ≡ n ∷ rest) × (m' ≡ emptied m n rest)
unfolding try_alloc
try_alloc-first m [] n m' f h = ground arith
try_alloc-first m (a ∷ rest) n m' f h =
    let (first, second) = pair-some a n (emptied m a rest) m' (rw f at h) in
    (rest, rw (← first) f, rw (← first) (sym second))

-- A page that `try_alloc` returns had no owner, and holds an empty table.
pub try_alloc-Allocated :
    {root : ℕ} {own : Owners} {m : Memory} {n : ℕ} {m' : Memory}
    → Owns root own m
    → try_alloc m ≡ some (n, m')
    → Allocated root own m n m'
try_alloc-Allocated {root} {own} {m} {n} {m'} w h =
    let (rest, f, e) = try_alloc-first m m.free n m' refl h in
    rw e (alloc-first m n rest w (subst (Supply own) f w.supply))
