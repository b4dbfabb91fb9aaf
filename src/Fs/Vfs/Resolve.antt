-- ===== src/Fs/Vfs/Resolve.antt =====
-- `open` finds the mount with the longest path.
use servos.Prelude.{
  ℕ, ◌<◌, ◌≤◌, ◌≡◌, ◌⊎◌, inl, inr, refl, ap, ap₂, sym, ◌∙◌, true, Option, none, some, List, [], ◌∷◌,
  ◌++◌, length, append_assoc, Option-cases, arith,
}
use servos.Fs.Path.{Bytes, names, components, strip_prefix}
use servos.Fs.Path.Prefix.{strip_prefix-names, none-some}
use servos.Fs.Vfs.{Mounts, bytes_lt, resolve}
use servos.Fs.Vfs.Sorted.{Before, IsSorted, bytes_lt_trans, bytes_lt_irrefl}

abbrev pub Has : {A : Type 0} → Bytes → A → Mounts A → Type 0
Has q g [] = ⊥
Has q g ((r, h) ∷ m) = ((q ≡ r) × (g ≡ h)) ⊎ Has q g m

-- The mount of `q` is on the way to `path`.
abbrev pub Covers : Bytes → Bytes → Type 0
Covers q path = (rest : Bytes) × (strip_prefix path q ≡ some rest)

joined : List Bytes → Bytes
joined [] = []
joined (n ∷ ns) = b'/' ∷ (n ++ joined ns)

-- the absolute path with these components, without a separator more
unfoldable pub render : List Bytes → Bytes
unfolding joined
render [] = b'/' ∷ []
render (n ∷ ns) = joined (n ∷ ns)

abbrev pub IsCanonical : Bytes → Type 0
IsCanonical q = q ≡ render (names (components q))

joined-append : (a b : List Bytes) → joined (a ++ b) ≡ joined a ++ joined b
unfolding joined
joined-append [] b = refl
joined-append (n ∷ a) b =
    ap (λ t. b'/' ∷ (n ++ t)) (joined-append a b)
    ∙ ap (λ t. b'/' ∷ t) (sym (append_assoc n (joined a) (joined b)))

lt-append : (a b : Bytes) (y : ℕ) → bytes_lt a (a ++ (y ∷ b)) ≡ true
unfolding bytes_lt
lt-append [] b y = refl
lt-append (x ∷ a) b y = ground (arith, lt-append a b y)

render-longer :
    (a ks : List Bytes) (x : Bytes)
    → (render a ≡ render (a ++ (x ∷ ks))) ⊎ (bytes_lt (render a) (render (a ++ (x ∷ ks))) ≡ true)
unfolding render joined
render-longer [] ks x = go (x ++ joined ks)
  where
    go : (t : Bytes) → ((b'/' ∷ []) ≡ b'/' ∷ t) ⊎ (bytes_lt (b'/' ∷ []) (b'/' ∷ t) ≡ true)
    go [] = inl refl
    go (y ∷ t) = inr (lt-append (b'/' ∷ []) t y)
render-longer (n ∷ a) ks x = inr (
    ap (bytes_lt (joined (n ∷ a))) (joined-append (n ∷ a) (x ∷ ks))
    ∙ lt-append (joined (n ∷ a)) (x ++ joined ks) b'/')

abbrev head_or : Bytes → List Bytes → Bytes
head_or d [] = d
head_or d (x ∷ l) = x

abbrev tail_of : List Bytes → List Bytes
tail_of [] = []
tail_of (x ∷ l) = l

split-longer :
    (a b l k : List Bytes)
    → a ++ l ≡ b ++ k
    → length a < length b
    → (x : Bytes) × (ks : List Bytes) × (b ≡ a ++ (x ∷ ks))
split-longer a [] l k e h = absurd (omega arith)
split-longer [] (x ∷ b) l k e h = (x, b, refl)
split-longer (n ∷ a) (x ∷ b) l k e h =
    let (y, ks, q) = split-longer a b l k (ap tail_of e) (omega arith) in
    (y, ks, ap₂ ◌∷◌ (sym (ap (head_or []) e)) q)

le-or-lt : (a b : ℕ) → (a ≤ b) ⊎ (b < a)
le-or-lt a b = ground arith

-- Of two mounts on the way to a path, the one that is not before the other has no fewer components.
longer :
    (path q r : Bytes)
    → IsCanonical q
    → IsCanonical r
    → Covers q path
    → Covers r path
    → ((r ≡ q) ⊎ (bytes_lt r q ≡ true))
    → length (names (components r)) ≤ length (names (components q))
longer path q r cq cr (s, es) (t, et) before =
    elim (le-or-lt (length (names (components r))) (length (names (components q)))) [
      | inl le ↦ le
      | inr h ↦
          let common =
            sym ((strip_prefix-names path q (names (components s))).1 (s, es, refl))
            ∙ (strip_prefix-names path r (names (components t))).1 (t, et, refl) in
          let (x, ks, e) =
            split-longer (names (components q)) (names (components r)) (names (components s))
              (names (components t)) common h in
          elim (render-longer (names (components q)) ks x) [
            | inl same ↦
                let eq : q ≡ r = cq ∙ (same ∙ sym (cr ∙ ap render e)) in
                absurd (omega (arith, h, ap (λ b. length (names (components b))) eq))
            | inr lt ↦ absurd (out (ap₂ bytes_lt cq (cr ∙ ap render e) ∙ lt) before)
          ]
    ]
  where
    irrefl : bytes_lt q q ≡ true → ⊥
    irrefl g = let f = bytes_lt_irrefl q in ground arith

    out : bytes_lt q r ≡ true → ((r ≡ q) ⊎ (bytes_lt r q ≡ true)) → ⊥
    out g (inl e) = irrefl (ap (bytes_lt q) (sym e) ∙ g)
    out g (inr f) = irrefl (bytes_lt_trans q r q g f)

module _ {A : Type 0} (path : Bytes) where
  -- What `resolve` found: an entry that covers the path, and none that does comes after it.
  pub record Last (m : Mounts A) (q : Bytes) (g : A) (rest : Bytes) : Type 0 where
    pub mounted : Has q g m
    pub covers : strip_prefix path q ≡ some rest
    pub last : (r : Bytes) (h : A) → Has r h m → Covers r path → (r ≡ q) ⊎ (bytes_lt r q ≡ true)

  Before-Has :
      (p : Bytes) (m : Mounts A) (q : Bytes) (g : A) → Before p m → Has q g m → bytes_lt p q ≡ true
  Before-Has p [] q g b h = absurd h
  Before-Has p ((r, k) ∷ m) q g b (inl (e, f)) = ap (bytes_lt p) e ∙ b.0
  Before-Has p ((r, k) ∷ m) q g b (inr h) = Before-Has p m q g b.1 h

  resolve-cases :
      (m : Mounts A)
      → IsSorted m
      → ((resolve path m ≡ none) × ((q : Bytes) (g : A) → Has q g m → Covers q path → ⊥))
        ⊎ ((q : Bytes) × (g : A) × (rest : Bytes) × (resolve path m ≡ some (g, rest))
            × Last m q g rest)
  unfolding resolve
  resolve-cases [] h = inl (refl, λ q g x c. absurd x)
  resolve-cases ((p, k) ∷ m) h = elim (resolve-cases m h.1) [
    | inr (q, g, rest, e, w) ↦ inr (
      q,
      g,
      rest,
      ap otherwise e,
      record {
        mounted = inr w.mounted;
        covers = w.covers;
        last = λ r j has c. later q g rest w r j has c;
      },
    )
    | inl (e, free) ↦ elim (Option-cases (strip_prefix path p)) [
      | inl n ↦ inl (ap otherwise e ∙ ap here n, λ q g has c. nowhere free n q g has c)
      | inr (rest, n) ↦ inr (
        p,
        k,
        rest,
        ap otherwise e ∙ ap here n,
        record { mounted = inl (refl, refl); covers = n; last = λ r j has c. only free r j has c },
      )
    ]
  ]
    where
      here : Option Bytes → Option (A × Bytes)
      here o = elim o [ none ↦ none | some rest ↦ some (k, rest) ]

      otherwise : Option (A × Bytes) → Option (A × Bytes)
      otherwise o = elim o [ none ↦ here (strip_prefix path p) | some found ↦ some found ]

      later :
          (q : Bytes) (g : A) (rest : Bytes)
          → Last m q g rest
          → (r : Bytes) (j : A) → Has r j ((p, k) ∷ m)
          → Covers r path
          → (r ≡ q) ⊎ (bytes_lt r q ≡ true)
      later q g rest w r j (inl (e, f)) c =
          inr (ap (λ t. bytes_lt t q) e ∙ Before-Has p m q g (h.0) w.mounted)
      later q g rest w r j (inr has) c = w.last r j has c

      nowhere :
          ((q : Bytes) (g : A) → Has q g m → Covers q path → ⊥)
          → strip_prefix path p ≡ none
          → (q : Bytes) (g : A) → Has q g ((p, k) ∷ m)
          → Covers q path
          → ⊥
      nowhere free n q g (inl (e, f)) (rest, c) =
          none-some (sym n ∙ (ap (strip_prefix path) (sym e) ∙ c))
      nowhere free n q g (inr has) c = free q g has c

      only :
          ((q : Bytes) (g : A) → Has q g m → Covers q path → ⊥)
          → (r : Bytes) (j : A) → Has r j ((p, k) ∷ m)
          → Covers r path
          → (r ≡ p) ⊎ (bytes_lt r p ≡ true)
      only free r j (inl (e, f)) c = inl e
      only free r j (inr has) c = absurd (free r j has c)

  -- In a table in the order of its keys, whose keys are absolute paths without a separator more,
  -- `open` finds a mount exactly when one is on the way to the path, and then the one with the most
  -- components, whose file system it asks for the components behind those of the mount.
  pub resolve-longest :
      (m : Mounts A)
      → IsSorted m
      → ((q : Bytes) (g : A) → Has q g m → IsCanonical q)
      → ((resolve path m ≡ none) × ((q : Bytes) (g : A) → Has q g m → Covers q path → ⊥))
        ⊎ ((q : Bytes) × (g : A) × (rest : Bytes) × (resolve path m ≡ some (g, rest))
            × Has q g m
            × (names (components path) ≡ names (components q) ++ names (components rest))
            × ((r : Bytes) (h : A)
                → Has r h m
                → Covers r path
                → length (names (components r)) ≤ length (names (components q))))
  resolve-longest m sorted canonical = elim (resolve-cases m sorted) [
    | inl n ↦ inl n
    | inr (q, g, rest, e, w) ↦ inr (
      q,
      g,
      rest,
      e,
      w.mounted,
      (strip_prefix-names path q (names (components rest))).1 (rest, w.covers, refl),
      λ r h has c.
          longer path q r (canonical q g w.mounted) (canonical r h has) (rest, w.covers) c
            (w.last r h has c),
    )
  ]
