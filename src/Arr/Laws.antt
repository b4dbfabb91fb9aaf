-- ===== src/Arr/Laws.antt =====
-- `HoleArray`: `push` takes the first hole, and `remove` takes back what `push` stored.
use servos.Prelude.{
  ℕ, zero, suc, ◌+◌, ◌<◌, ◌≡◌, ◌≢◌, ◌⊎◌, inl, inr, refl, ap, ap₂, sym, ◌∙◌, Option, none, some, [],
  ◌∷◌, set, length, length-set, arith,
}
use servos.Arr.{HoleArray, Pushed, pushed, full, find_free_space, push, get, remove}

-- Slot `k` is the first hole of `a`.
abbrev pub FirstHole {ℓ} : {A : Type ℓ} → HoleArray A → ℕ → Type ℓ
FirstHole a k = (k < length a) × (get a k ≡ none) × ((j : ℕ) → j < k → get a j ≢ none)

abbrev pub AllTaken {ℓ} : {A : Type ℓ} → HoleArray A → Type ℓ
AllTaken a = (j : ℕ) → j < length a → get a j ≢ none

module _ {ℓ} {A : Type ℓ} where
  find_free_space-cases :
      (i : ℕ) (a : HoleArray A)
      → ((find_free_space i a ≡ none) × AllTaken a)
        ⊎ ((k : ℕ) × (find_free_space i a ≡ some (i + k)) × FirstHole a k)
  unfolding find_free_space get
  find_free_space-cases i [] = inl (refl, λ j h. absurd (omega arith))
  find_free_space-cases i (none ∷ a) =
      inr (0, ap some (omega arith), (omega arith, refl, λ j h. absurd (omega arith)))
  find_free_space-cases i (some x ∷ a) = elim (find_free_space-cases (i + 1) a) [
    | inl (e, t) ↦ inl (e, taken t)
    | inr (k, e, (lt, hole, before)) ↦
        inr (suc k, e ∙ ap some (omega arith), (omega arith, hole, earlier k before))
  ]
    where
      taken : AllTaken a → AllTaken (some x ∷ a)
      taken t zero h e = ground arith
      taken t (suc j) h e = t j (omega arith) e

      earlier :
          (k : ℕ)
          → ((j : ℕ) → j < k → get a j ≢ none)
          → (j : ℕ) → j < suc k
          → get (some x ∷ a) j ≢ none
      earlier k b zero h e = ground arith
      earlier k b (suc j) h e = b j (omega arith) e

  get-set_self : (a : HoleArray A) (i : ℕ) (v : Option A) → i < length a → get (set a i v) i ≡ v
  unfolding get
  get-set_self [] i v h = absurd (omega arith)
  get-set_self (x ∷ a) zero v h = refl
  get-set_self (x ∷ a) (suc i) v h = get-set_self a i v (omega arith)

  get-set_ne : (a : HoleArray A) (i j : ℕ) (v : Option A) → i ≢ j → get (set a i v) j ≡ get a j
  unfolding get
  get-set_ne [] i j v h = refl
  get-set_ne (x ∷ a) zero zero v h = absurd (h refl)
  get-set_ne (x ∷ a) zero (suc j) v h = refl
  get-set_ne (x ∷ a) (suc i) zero v h = refl
  get-set_ne (x ∷ a) (suc i) (suc j) v h = get-set_ne a i j v (λ e. h (ap suc e))

  set-back : (a : HoleArray A) (i : ℕ) (v : Option A) → get a i ≡ none → set (set a i v) i none ≡ a
  unfolding get
  set-back [] i v h = refl
  set-back (x ∷ a) zero v h = ap (λ s. s ∷ a) (sym h)
  set-back (x ∷ a) (suc i) v h = ap (λ l. x ∷ l) (set-back a i v h)

  -- Pushing either fails, with the item handed back and every slot taken, or stores the item in the
  -- first hole, whose number it returns, and leaves every other slot and the length as they were.
  pub push-cases :
      (a : HoleArray A) (item : A)
      → ((push a item ≡ full item) × AllTaken a)
        ⊎ ((i : ℕ) × (a' : HoleArray A) × (push a item ≡ pushed i a')
            × FirstHole a i
            × (get a' i ≡ some item)
            × ((j : ℕ) → i ≢ j → get a' j ≡ get a j)
            × (length a' ≡ length a))
  unfolding push
  push-cases a item = elim (find_free_space-cases 0 a) [
    | inl (e, t) ↦ inl (ap done_with e, t)
    | inr (k, e, h) ↦ inr (
      k,
      set a k (some item),
      ap done_with (e ∙ ap some (omega arith)),
      h,
      get-set_self a k (some item) (h.0),
      λ j ne. get-set_ne a k j (some item) ne,
      length-set a k (some item),
    )
  ]
    where
      done_with : Option ℕ → Pushed A
      done_with o = elim o [ none ↦ full item | some i ↦ pushed i (set a i (some item)) ]

  -- Removing the slot that a push returned gives the item back and restores the array.
  pub remove-push :
      (a : HoleArray A) (item : A) (i : ℕ) (a' : HoleArray A)
      → push a item ≡ pushed i a'
      → remove a' i ≡ (some item, a)
  unfolding push remove
  remove-push a item i a' h = elim (find_free_space-cases 0 a) [
    | inl (e, t) ↦ absurd (full-pushed (sym (ap done_with e) ∙ h))
    | inr (k, e, hole) ↦
        sym (ap undo (sym (ap done_with (e ∙ ap some (omega arith))) ∙ h))
        ∙ ap₂ (λ x b. (x, b)) (get-set_self a k (some item) (hole.0))
            (set-back a k (some item) (hole.1))
  ]
    where
      done_with : Option ℕ → Pushed A
      done_with o = elim o [ none ↦ full item | some i ↦ pushed i (set a i (some item)) ]

      undo : Pushed A → Option A × HoleArray A
      undo p = elim p [ pushed j b ↦ (get b j, set b j none) | full x ↦ (none, []) ]

      full-pushed : {j : ℕ} {b : HoleArray A} {x : A} → full x ≡ pushed j b → ⊥
      full-pushed h = ground arith
