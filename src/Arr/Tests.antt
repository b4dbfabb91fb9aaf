-- ===== src/Arr/Tests.antt =====
-- The laws of `HoleArray` at an array with one hole.
use servos.Prelude.{ℕ, ◌≡◌, ◌≢◌, ◌⊎◌, refl, none, some, [], ◌∷◌, length}
use servos.Arr.{HoleArray, pushed, full, push, remove, get, find_free_space}
use servos.Arr.Laws.{AllTaken, FirstHole, push-cases, remove-push}

abbrev one_hole : HoleArray ℕ
one_hole = some 7 ∷ none ∷ some 9 ∷ []

push-cases_example :
    ((push one_hole 8 ≡ full 8) × AllTaken one_hole)
    ⊎ ((i : ℕ) × (a' : HoleArray ℕ) × (push one_hole 8 ≡ pushed i a')
        × FirstHole one_hole i
        × (get a' i ≡ some 8)
        × ((j : ℕ) → i ≢ j → get a' j ≡ get one_hole j)
        × (length a' ≡ length one_hole))
push-cases_example = push-cases one_hole 8

remove-push_example : remove (some 7 ∷ some 8 ∷ some 9 ∷ []) 1 ≡ (some 8, one_hole)
unfolding push find_free_space
remove-push_example = remove-push one_hole 8 1 (some 7 ∷ some 8 ∷ some 9 ∷ []) refl
