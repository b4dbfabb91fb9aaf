-- ===== src/Fs/Vfs/Sorted.antt =====
-- `mount` keeps the table in the order of its keys.
use servos.Prelude.{
  ◌≡◌, ◌⊎◌, inl, inr, refl, ap, ap₂, sym, ◌∙◌, Bool, true, false, Option, none, some, [], ◌∷◌,
  Bool-cases, if◌then◌else◌, arith,
}
use servos.Fs.Path.{Bytes, bytes_eq}
use servos.Fs.Path.Prefix.{bytes_eq-eq, bytes_eq_self}
use servos.Fs.Vfs.{Mounts, bytes_lt, mount}

-- The key comes before all keys of the table.
abbrev pub Before {ℓ} : {A : Type ℓ} → Bytes → Mounts A → Type 0
Before p [] = Unit
Before p ((q, g) ∷ m) = (bytes_lt p q ≡ true) × Before p m

abbrev pub IsSorted {ℓ} : {A : Type ℓ} → Mounts A → Type 0
IsSorted [] = Unit
IsSorted ((q, g) ∷ m) = Before q m × IsSorted m

pub bytes_lt_trans :
    (a b c : Bytes) → bytes_lt a b ≡ true → bytes_lt b c ≡ true → bytes_lt a c ≡ true
unfolding bytes_lt
bytes_lt_trans [] [] c h g = ground arith
bytes_lt_trans [] (y ∷ b) [] h g = ground arith
bytes_lt_trans [] (y ∷ b) (z ∷ c) h g = refl
bytes_lt_trans (x ∷ a) [] c h g = ground arith
bytes_lt_trans (x ∷ a) (y ∷ b) [] h g = ground arith
bytes_lt_trans (x ∷ a) (y ∷ b) (z ∷ c) h g = ground (arith, bytes_lt_trans a b c)

bytes_lt_total : (a b : Bytes) → bytes_eq a b ≡ false → bytes_lt a b ≡ false → bytes_lt b a ≡ true
unfolding bytes_lt bytes_eq
bytes_lt_total [] [] h g = ground arith
bytes_lt_total [] (y ∷ b) h g = ground arith
bytes_lt_total (x ∷ a) [] h g = refl
bytes_lt_total (x ∷ a) (y ∷ b) h g = ground (arith, bytes_lt_total a b)

pub bytes_lt_irrefl : (a : Bytes) → bytes_lt a a ≡ false
unfolding bytes_lt
bytes_lt_irrefl [] = refl
bytes_lt_irrefl (x ∷ a) = ground (arith, bytes_lt_irrefl a)

lt-ne : (p r : Bytes) → bytes_lt p r ≡ true → bytes_eq p r ≡ true → ⊥
lt-ne p r h e = true-false (sym h ∙ (ap (bytes_lt p) (sym (bytes_eq-eq p r e)) ∙ bytes_lt_irrefl p))
  where
    true-false : true ≡ false → ⊥
    true-false z = ground arith

module _ {ℓ} {A : Type ℓ} where
  Before-trans : (p q : Bytes) (m : Mounts A) → bytes_lt p q ≡ true → Before q m → Before p m
  Before-trans p q [] h b = tt
  Before-trans p q ((r, g) ∷ m) h b = (bytes_lt_trans p q r h (b.0), Before-trans p q m h b.1)

  -- the file system mounted at exactly these bytes
  pub lookup : Bytes → Mounts A → Option A
  lookup q [] = none
  lookup q ((r, g) ∷ m) = if bytes_eq q r then some g else lookup q m

  -- What a mount that succeeds leaves.
  pub record Mounted (p : Bytes) (fs : A) (m m' : Mounts A) : Type ℓ where
    pub sorted : IsSorted m'
    pub vacant : lookup p m ≡ none
    pub entries : (q : Bytes) → lookup q m' ≡ (if bytes_eq q p then some fs else lookup q m)
    pub after : (r : Bytes) → Before r m → bytes_lt r p ≡ true → Before r m'

  Before-lookup : (p : Bytes) (m : Mounts A) → Before p m → lookup p m ≡ none
  unfolding lookup
  Before-lookup p [] b = refl
  Before-lookup p ((r, g) ∷ m) b = elim (Bool-cases (bytes_eq p r)) [
    | inl e ↦ absurd (lt-ne p r (b.0) e)
    | inr e ↦ ap (λ t. if t then some g else lookup p m) e ∙ Before-lookup p m b.1
  ]

  -- Mounting fails exactly on a path that is in the table already, and else adds this one entry and
  -- keeps the order.
  pub mount-cases :
      (p : Bytes) (fs : A) (m : Mounts A)
      → IsSorted m
      → ((mount p fs m ≡ none) × ((g : A) × (lookup p m ≡ some g)))
        ⊎ ((m' : Mounts A) × (mount p fs m ≡ some m') × Mounted p fs m m')
  unfolding mount lookup
  mount-cases p fs [] h = inr (
    (p, fs) ∷ [],
    refl,
    record { sorted = (tt, tt); vacant = refl; entries = λ q. refl; after = λ r b lt. (lt, tt) },
  )
  mount-cases p fs ((q, g) ∷ m) h = elim (Bool-cases (bytes_eq p q)) [
    | inl e ↦ inl (ap (λ t. table t (bytes_lt p q) (mount p fs m)) e, (g, here e))
    | inr e ↦ elim (Bool-cases (bytes_lt p q)) [
      | inl lt ↦ inr (
        (p, fs) ∷ ((q, g) ∷ m),
        chosen e lt,
        record {
          sorted = ((lt, Before-trans p q m lt (h.0)), h);
          vacant = here e ∙ Before-lookup p m (Before-trans p q m lt (h.0));
          entries = λ x. refl;
          after = λ r b rl. (rl, b);
        },
      )
      | inr ge ↦ elim (mount-cases p fs m h.1) [
        | inl (n, (f, l)) ↦ inl (chosen e ge ∙ ap put n, (f, here e ∙ l))
        | inr (m', n, w) ↦ inr (
          (q, g) ∷ m',
          chosen e ge ∙ ap put n,
          record {
            sorted = (w.after q (h.0) (bytes_lt_total p q e ge), w.sorted);
            vacant = here e ∙ w.vacant;
            entries = λ x. entry e m' x (w.entries x);
            after = λ r b rl. (b.0, w.after r b.1 rl);
          },
        )
      ]
    ]
  ]
    where
      put : Option (Mounts A) → Option (Mounts A)
      put rest = elim rest [ none ↦ none | some m' ↦ some ((q, g) ∷ m') ]

      table : Bool → Bool → Option (Mounts A) → Option (Mounts A)
      table t c rest = if t then none else if c then some ((p, fs) ∷ ((q, g) ∷ m)) else put rest

      here :
          {t : Bool} → bytes_eq p q ≡ t → lookup p ((q, g) ∷ m) ≡ (if t then some g else lookup p m)
      here e = ap (λ t. if t then some g else lookup p m) e

      chosen :
          {t c : Bool}
          → bytes_eq p q ≡ t
          → bytes_lt p q ≡ c
          → mount p fs ((q, g) ∷ m) ≡ table t c (mount p fs m)
      chosen e f = ap₂ (λ t c. table t c (mount p fs m)) e f

      apart : (x : Bytes) → bytes_eq p q ≡ false → bytes_eq x q ≡ true → bytes_eq x p ≡ true → ⊥
      apart x e k j =
          let same : bytes_eq p q ≡ true =
            ap₂ bytes_eq (sym (bytes_eq-eq x p j)) (sym (bytes_eq-eq x q k)) ∙ bytes_eq_self x in
          ground arith

      entry :
          bytes_eq p q ≡ false
          → (m' : Mounts A) (x : Bytes)
          → lookup x m' ≡ (if bytes_eq x p then some fs else lookup x m)
          → lookup x ((q, g) ∷ m') ≡ (if bytes_eq x p then some fs else lookup x ((q, g) ∷ m))
      entry e m' x w = elim (Bool-cases (bytes_eq x q)) [
        | inl k ↦ elim (Bool-cases (bytes_eq x p)) [
          | inl j ↦ absurd (apart x e k j)
          | inr j ↦ ground arith
        ]
        | inr k ↦ ground arith
      ]
