-- ===== src/Proc/Queue.antt =====
-- What kernel/src/proc.rs uses of `VecDeque`: a list with its front first.
use servos.Prelude.{ℕ, suc, Option, none, some, List, [], ◌∷◌, ◌==◌, if◌then◌else◌, set}

-- `iter().position(|&rhs| rhs == n)`
unfoldable pub position : ℕ → List ℕ → Option ℕ
position n [] = none
position n (m ∷ l) =
    let rest = position n l in
    if m == n then some 0 else elim rest [ none ↦ none | some i ↦ some (suc i) ]

-- `pop_back`
unfoldable pub pop_back : List ℕ → List ℕ
pop_back [] = []
pop_back (m ∷ []) = []
pop_back (m ∷ l ∷ ls) = m ∷ pop_back (l ∷ ls)

-- `back`
unfoldable pub last_of : ℕ → List ℕ → ℕ
last_of m [] = m
last_of m (l ∷ ls) = last_of l ls

-- `swap_remove_back`: the last entry takes the place of the one at `i`
unfoldable pub swap_remove_back : ℕ → List ℕ → List ℕ
swap_remove_back i [] = []
swap_remove_back i (m ∷ l) = pop_back (set (m ∷ l) i (last_of m l))
