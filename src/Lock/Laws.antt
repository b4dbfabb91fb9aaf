-- ===== src/Lock/Laws.antt =====
-- How many guards of a lock are held, and what the operations on what is held do to it.
use servos.Prelude.{
  ℕ, zero, suc, ◌+◌, ◌≡◌, ◌≢◌, ap, Bool, some, List, [], ◌∷◌, get_elem?, set, ◌==◌, if◌then◌else◌,
  arith,
}
use servos.Lock.{Held, guard, token, Words, store, remove, Hart, put}

-- whether it is a guard of the lock
abbrev pub is_of : ℕ → Held → ℕ
is_of l (guard l' t) = if l' == l then 1 else 0
is_of l (token t) = 0

-- the guards of a lock
abbrev pub count : ℕ → List Held → ℕ
count l [] = 0
count l (x ∷ xs) = is_of l x + count l xs

pub count-remove :
    (l : ℕ) (xs : List Held) (i : ℕ) (x : Held)
    → get_elem? xs i ≡ some x
    → count l (remove i xs) + is_of l x ≡ count l xs
unfolding remove
count-remove l [] i x h = cc
count-remove l (y ∷ ys) zero x h = let e : y ≡ x = cc in omega (arith, ap (is_of l) e)
count-remove l (y ∷ ys) (suc i) x h = omega (arith, count-remove l ys i x h)

pub count-set :
    (l : ℕ) (xs : List Held) (i : ℕ) (x y : Held)
    → get_elem? xs i ≡ some x
    → count l (set xs i y) + is_of l x ≡ count l xs + is_of l y
count-set l [] i x y h = cc
count-set l (z ∷ zs) zero x y h = let e : z ≡ x = cc in omega (arith, ap (is_of l) e)
count-set l (z ∷ zs) (suc i) x y h = omega (arith, count-set l zs i x y h)

pub store_self : (l : ℕ) (b : Bool) (w : Words) → store l b w l ≡ b
unfolding store
store_self l b w = ground arith

pub store_other : (l l' : ℕ) (b : Bool) (w : Words) → l ≢ l' → store l b w l' ≡ w l'
unfolding store
store_other l l' b w h = ground arith

pub put_self : (i : ℕ) (h : Hart) (f : ℕ → Hart) → put i h f i ≡ h
unfolding put
put_self i h f = ground arith

pub put_other : (i j : ℕ) (h : Hart) (f : ℕ → Hart) → i ≢ j → put i h f j ≡ f j
unfolding put
put_other i j h f ne = ground arith
