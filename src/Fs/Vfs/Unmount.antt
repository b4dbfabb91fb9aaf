-- ===== src/Fs/Vfs/Unmount.antt =====
-- Vfs::unmount of kernel/src/fs/vfs.rs. The map is searched by the order of `Path`, while its keys are
-- kept in the order of their bytes. The search is that of a node of the tree, which up to eleven
-- mounts is the whole tree: from the first key on, as long as the path is greater.
use servos.Prelude.{
  ◌≡◌, refl, ap, sym, ◌∙◌, Bool, true, false, Option, none, some, [], ◌∷◌, if◌then◌else◌,
}
use servos.Fs.Path.{Bytes, bytes_eq}
use servos.Fs.Path.Prefix.{some-eq, none-some}
use servos.Fs.Path.Order.{less, equal, greater, path_cmp, path_cmp_self}
use servos.Fs.Vfs.{Mounts, bytes_lt, mount}

module _ {ℓ} {A : Type ℓ} where
  -- Vfs::unmount
  unfoldable pub unmount : Bytes → Mounts A → Bool × Mounts A
  unmount path [] = (false, [])
  unmount path ((q, g) ∷ m) =
      let (found, m') = unmount path m in
      elim (path_cmp path q) [
        | less ↦ (false, (q, g) ∷ m)
        | equal ↦ (true, m)
        | greater ↦ (found, (q, g) ∷ m')
      ]

  -- The two orders agree on the path and those keys of the table that it is not smaller than.
  abbrev AgreesOn : Bytes → Mounts A → Type 0
  AgreesOn p [] = Unit
  AgreesOn p ((q, g) ∷ m) =
      (bytes_eq p q ≡ false → bytes_lt p q ≡ false → path_cmp p q ≡ greater) × AgreesOn p m

  unmount-first : (p : Bytes) (fs : A) (m : Mounts A) → unmount p ((p, fs) ∷ m) ≡ (true, m)
  unfolding unmount
  unmount-first p fs m =
      ap
        (λ o. elim o as (λ x. Bool × Mounts A) [
          | less ↦ (false, (p, fs) ∷ m)
          | equal ↦ (true, m)
          | greater ↦ ((unmount p m).0, (p, fs) ∷ (unmount p m).1)
        ])
        (path_cmp_self p)

  unmount-later :
      (p q : Bytes) (g : A) (m m' : Mounts A)
      → path_cmp p q ≡ greater
      → unmount p m' ≡ (true, m)
      → unmount p ((q, g) ∷ m') ≡ (true, (q, g) ∷ m)
  unfolding unmount
  unmount-later p q g m m' c e =
      ap
        (λ o. elim o as (λ x. Bool × Mounts A) [
          | less ↦ (false, (q, g) ∷ m')
          | equal ↦ (true, m')
          | greater ↦ ((unmount p m').0, (q, g) ∷ (unmount p m').1)
        ])
        c
      ∙ ap (λ x. (x.0, (q, g) ∷ x.1)) e

  -- Where the two orders agree, unmounting takes the last mount back.
  pub unmount-mount :
      (p : Bytes) (fs : A) (m m' : Mounts A)
      → AgreesOn p m
      → mount p fs m ≡ some m'
      → unmount p m' ≡ (true, m)
  unfolding mount
  unmount-mount p fs [] m' h e = ap (unmount p) (sym (some-eq e)) ∙ unmount-first p fs []
  unmount-mount p fs ((q, g) ∷ m) m' h e =
      taken (bytes_eq p q) (bytes_lt p q) (mount p fs m) refl refl
        (λ m1 r. unmount-mount p fs m m1 h.1 r) e
    where
      taken :
          (t c : Bool) (rest : Option (Mounts A))
          → bytes_eq p q ≡ t
          → bytes_lt p q ≡ c
          → ((m1 : Mounts A) → rest ≡ some m1 → unmount p m1 ≡ (true, m))
          → (if t
              then none
              else if c
              then some ((p, fs) ∷ ((q, g) ∷ m))
              else elim rest [ none ↦ none | some r ↦ some ((q, g) ∷ r) ])
            ≡ some m'
          → unmount p m' ≡ (true, (q, g) ∷ m)
      taken true c rest a b r f = absurd (none-some f)
      taken false true rest a b r f =
          ap (unmount p) (sym (some-eq f)) ∙ unmount-first p fs ((q, g) ∷ m)
      taken false false none a b r f = absurd (none-some f)
      taken false false (some m1) a b r f =
          ap (unmount p) (sym (some-eq f)) ∙ unmount-later p q g m m1 (h.0 a b) (r m1 refl)
