-- ===== src/Proc/Count.antt =====
-- How often a process is in a list: what the operations on deques do to it.
use servos.Prelude.{
  ℕ, zero, suc, ◌+◌, ◌<◌, ◌≡◌, ◌≢◌, refl, ap, Option, none, some, inl, inr, List, [], ◌∷◌, ◌++◌,
  ◌==◌, if◌then◌else◌, set, arith, Option-cases,
}
use servos.Proc.Queue.{position, pop_back, last_of, swap_remove_back}

abbrev pub one : ℕ → ℕ → ℕ
one n m = if m == n then 1 else 0

unfoldable pub count : ℕ → List ℕ → ℕ
count n [] = 0
count n (m ∷ l) = one n m + count n l

pub count-append : (n : ℕ) (l : List ℕ) (m : ℕ) → count n (l ++ m ∷ []) ≡ count n l + one n m
unfolding count
count-append n [] m = omega arith
count-append n (x ∷ l) m = omega (arith, count-append n l m)

pub pop_back-append : (l : List ℕ) (m : ℕ) → pop_back (l ++ m ∷ []) ≡ l
unfolding pop_back
pop_back-append [] m = refl
pop_back-append (x ∷ []) m = refl
pop_back-append (x ∷ y ∷ l) m = ap (λ r. x ∷ r) (pop_back-append (y ∷ l) m)

count-pop_back :
    (n x : ℕ) (l : List ℕ) → count n (pop_back (x ∷ l)) + one n (last_of x l) ≡ count n (x ∷ l)
unfolding count pop_back last_of
count-pop_back n x [] = omega arith
count-pop_back n x (y ∷ l) = omega (arith, count-pop_back n y l)

last_of-last_of : (x : ℕ) (l : List ℕ) → last_of (last_of x l) l ≡ last_of x l
unfolding last_of
last_of-last_of x [] = refl
last_of-last_of x (y ∷ l) = refl

last_of-set : (x : ℕ) (l : List ℕ) (i : ℕ) → last_of x (set l i (last_of x l)) ≡ last_of x l
unfolding last_of
last_of-set x [] i = refl
last_of-set x (y ∷ l) zero = last_of-last_of y l
last_of-set x (y ∷ l) (suc i) = last_of-set y l i

pub position-none : (n : ℕ) (l : List ℕ) → position n l ≡ none → count n l ≡ 0
unfolding position count
position-none n [] h = refl
position-none n (m ∷ l) h = elim (Option-cases (position n l)) [
  | inl e ↦ let c = position-none n l e in ground arith
  | inr (i, e) ↦ ground arith
]

none-some : {i : ℕ} → ◌≢◌ {A = Option ℕ} none (some i)
none-some h = ground arith

position-zero : (n m : ℕ) (l : List ℕ) → position n (m ∷ l) ≡ some 0 → m ≡ n
unfolding position
position-zero n m l h = elim (Option-cases (position n l)) [
  | inl e ↦ ground arith
  | inr (i, e) ↦ ground arith
]

position-suc :
    (n m : ℕ) (l : List ℕ) (i : ℕ) → position n (m ∷ l) ≡ some (suc i) → position n l ≡ some i
unfolding position
position-suc n m l i h = elim (Option-cases (position n l)) [
  | inl e ↦ ground arith
  | inr (j, e) ↦ ground arith
]

count-set :
    (n : ℕ) (l : List ℕ) (i v k : ℕ)
    → position n l ≡ some i
    → count k (set l i v) + one k n ≡ count k l + one k v
unfolding count position
count-set n [] i v k h = let q : none ≡ some i = h in absurd (none-some q)
count-set n (m ∷ l) zero v k h = let e = ap (one k) (position-zero n m l h) in omega arith
count-set n (m ∷ l) (suc i) v k h =
    let e = count-set n l i v k (position-suc n m l i h) in omega arith

-- An entry that is removed is there once less.
pub count-swap_remove_back :
    (n : ℕ) (l : List ℕ) (i k : ℕ)
    → position n l ≡ some i
    → count k (swap_remove_back i l) + one k n ≡ count k l
unfolding position swap_remove_back
count-swap_remove_back n [] i k h = ground arith
count-swap_remove_back n (m ∷ l) zero k h =
    let e = count-set n (m ∷ l) 0 (last_of m l) k h in
    let f = count-pop_back k (last_of m l) l in
    let g = ap (one k) (last_of-last_of m l) in omega arith
count-swap_remove_back n (m ∷ l) (suc i) k h =
    let e = count-set n (m ∷ l) (suc i) (last_of m l) k h in
    let f = count-pop_back k m (set l i (last_of m l)) in
    let g = ap (one k) (last_of-set m l i) in omega arith

pub count-position : (n : ℕ) (l : List ℕ) → 0 < count n l → (i : ℕ) × (position n l ≡ some i)
count-position n l h = elim (Option-cases (position n l)) [
  | inl e ↦ absurd (let c = position-none n l e in omega arith)
  | inr p ↦ p
]
