-- ===== src/Arr.antt =====
-- kernel/src/arr.rs. A `HoleArray` is its slots; the length of the array is the length of the list.
pub mod Laws
mod Tests
use servos.Prelude.{ℕ, zero, suc, ◌+◌, Option, none, some, List, [], ◌∷◌, set, replicate}
use servos.Prelude.Outcome.{Outcome, done, panic}

abbrev pub HoleArray {ℓ} : Type ℓ → Type ℓ
HoleArray A = List (Option A)

-- `Result<(usize, &mut T), T>`, with the array that the call leaves
pub data Pushed {ℓ} (A : Type ℓ) : Type ℓ where
  pushed : ℕ → HoleArray A → Pushed A
  full : A → Pushed A

module _ {ℓ} {A : Type ℓ} where
  -- HoleArray::empty
  abbrev pub empty : ℕ → HoleArray A
  empty n = replicate n none

  -- HoleArray::find_free_space, with `i` the number of the first slot
  unfoldable pub find_free_space : ℕ → HoleArray A → Option ℕ
  find_free_space i [] = none
  find_free_space i (none ∷ a) = some i
  find_free_space i (some x ∷ a) = find_free_space (i + 1) a

  -- HoleArray::push
  unfoldable pub push : HoleArray A → A → Pushed A
  push a item = elim (find_free_space 0 a) [
    | none ↦ full item
    | some i ↦ pushed i (set a i (some item))
  ]

  -- `self.0.get(i).and_then(…)`: a slot out of range holds nothing
  unfoldable pub get : HoleArray A → ℕ → Option A
  get [] i = none
  get (s ∷ a) zero = s
  get (s ∷ a) (suc i) = get a i

  -- HoleArray::remove
  unfoldable pub remove : HoleArray A → ℕ → Option A × HoleArray A
  remove a i = (get a i, set a i none)

  -- Index::index
  unfoldable pub index : HoleArray A → ℕ → Outcome A
  index a i = elim (get a i) [ none ↦ panic | some x ↦ done x ]
