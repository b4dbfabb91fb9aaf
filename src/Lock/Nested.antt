-- ===== src/Lock/Nested.antt =====
-- Interrupts while a hart holds locks, if it drops what it holds in the reverse order.
use servos.Prelude.{
  ℕ, zero, suc, ◌≡◌, refl, sym, subst, Bool, true, false, some, List, [], ◌∷◌, get_elem?, set,
  if◌then◌else◌,
}
use servos.Lock.{
  Held, guard, token, Words, remove, Hart, Pc, running, attempt, spinning, trying, releasing, Move,
  lock_call, lock_win, lock_miss, spin, spin_out, try_call, try_win, try_miss, drop_guard,
  drop_rest, keep_token, forget_guard, drop_kept, forget_token, enable, ask, locked, drop_token,
  disable_intr, enable_intr,
}

-- what a guard or a token remembers
abbrev pub remembers : Held → Bool
remembers (guard l t) = t
remembers (token t) = t

-- Interrupts are off under everything that is held, and the oldest token remembers `base`.
abbrev pub IsNested : Bool → Bool → List Held → Type 0
IsNested base sie [] = sie ≡ base
IsNested base sie (x ∷ xs) = (sie ≡ false) × IsNested base (remembers x) xs

-- the same with the token that the lock's code has at hand
abbrev pub IsNestedAt : Bool → Bool → Pc → List Held → Type 0
IsNestedAt base sie running xs = IsNested base sie xs
IsNestedAt base sie (attempt l t) xs = (sie ≡ false) × IsNested base t xs
IsNestedAt base sie (spinning l t) xs = (sie ≡ false) × IsNested base t xs
IsNestedAt base sie (trying l t) xs = (sie ≡ false) × IsNested base t xs
IsNestedAt base sie (releasing t) xs = (sie ≡ false) × IsNested base t xs

abbrev pub IsHart : Bool → Hart → Type 0
IsHart base h = IsNestedAt base h.sie h.pc h.held

-- The hart drops only what it took last, forgets no token, and does not enable interrupts itself.
abbrev pub IsOrderly : {w w' : Words} {h h' : Hart} → Move w h w' h' → Type 0
IsOrderly (drop_guard i l t p g) = i ≡ 0
IsOrderly (drop_kept i t p g) = i ≡ 0
IsOrderly (forget_token i t p g) = ⊥
IsOrderly (enable p) = ⊥
IsOrderly _ = Unit

-- The moves of one hart, between which other harts may change the words.
pub data Orderly (h : Hart) : Hart → Type 0 where
  start : Orderly h h
  later :
      {w w' : Words} {h' h'' : Hart}
      → Orderly h h'
      → (m : Move w h' w' h'') → IsOrderly m
      → Orderly h h''

-- the state of a hart at a place of its code
at_pc :
    (base : Bool) (h : Hart) (pc : Pc) → h.pc ≡ pc → IsHart base h → IsNestedAt base h.sie pc h.held
at_pc base h pc e n = subst (λ p. IsNestedAt base h.sie p h.held) e n

drop_token-IsNested :
    (base t : Bool) (h : Hart)
    → h.pc ≡ running
    → h.sie ≡ false
    → IsNested base t h.held
    → IsHart base (drop_token t h)
unfolding drop_token enable_intr
drop_token-IsNested base true h p e n = rw p n
drop_token-IsNested base false h p e n = rw (p, e) n

-- what is on top comes off
taken :
    (base sie : Bool) (xs : List Held) (x : Held)
    → get_elem? xs 0 ≡ some x
    → IsNested base sie xs
    → (sie ≡ false) × IsNested base (remembers x) (remove 0 xs)
unfolding remove
taken base sie [] x g n = cc
taken base sie (y ∷ ys) x g n =
    let e : y ≡ x = cc in (n.0, subst (λ z. IsNested base (remembers z) ys) e n.1)

-- a guard turns into the token that it remembers
kept :
    (base sie : Bool) (xs : List Held) (i l : ℕ) (t : Bool)
    → get_elem? xs i ≡ some (guard l t)
    → IsNested base sie xs
    → IsNested base sie (set xs i (token t))
kept base sie [] i l t g n = n
kept base sie (x ∷ xs) zero l t g n =
    let e : x ≡ guard l t = cc in (n.0, subst (λ z. IsNested base (remembers z) xs) e n.1)
kept base sie (x ∷ xs) (suc i) l t g n = (n.0, kept base (remembers x) xs i l t g n.1)

Move-IsHart :
    (base : Bool) {w w' : Words} {h h' : Hart} (m : Move w h w' h')
    → IsOrderly m
    → IsHart base h
    → IsHart base h'
unfolding ask disable_intr locked
Move-IsHart base {h} (lock_call l p) o n = (refl, at_pc base h running p n)
Move-IsHart base {h} (lock_win l t p f) o n = at_pc base h (attempt l t) p n
Move-IsHart base {h} (lock_miss l t p) o n = at_pc base h (attempt l t) p n
Move-IsHart base (spin l t p f) o n = n
Move-IsHart base {h} (spin_out l t p f) o n = at_pc base h (spinning l t) p n
Move-IsHart base {h} (try_call l p) o n = (refl, at_pc base h running p n)
Move-IsHart base {h} (try_win l t p f) o n = at_pc base h (trying l t) p n
Move-IsHart base {h} (try_miss l t p f) o n =
    let inside = at_pc base h (trying l t) p n in
    drop_token-IsNested base t (record h { pc = running }) refl inside.0 inside.1
Move-IsHart base {h} (drop_guard i l t p g) o n =
    subst (λ j. (h.sie ≡ false) × IsNested base t (remove j h.held)) (sym o)
      (taken base h.sie h.held (guard l t) (rw o at g) (at_pc base h running p n))
Move-IsHart base {h} (drop_rest t p) o n =
    let inside = at_pc base h (releasing t) p n in
    drop_token-IsNested base t (record h { pc = running }) refl inside.0 inside.1
Move-IsHart base {h} (keep_token i l t p g) o n =
    subst (λ pc. IsNestedAt base h.sie pc (set h.held i (token t))) (sym p)
      (kept base h.sie h.held i l t g (at_pc base h running p n))
Move-IsHart base {h} (forget_guard i l t p g) o n =
    subst (λ pc. IsNestedAt base h.sie pc (set h.held i (token t))) (sym p)
      (kept base h.sie h.held i l t g (at_pc base h running p n))
Move-IsHart base {h} (drop_kept i t p g) o n =
    let top = taken base h.sie h.held (token t) (rw o at g) (at_pc base h running p n) in
    drop_token-IsNested base t (record h { held = remove i h.held }) p top.0
      (subst (λ j. IsNested base t (remove j h.held)) (sym o) top.1)
Move-IsHart base (forget_token i t p g) o n = absurd o
Move-IsHart base (enable p) o n = absurd o

abbrev pub is_idle_at : Pc → List Held → Bool
is_idle_at running [] = true
is_idle_at _ _ = false

-- outside the lock's code, holding nothing
abbrev pub is_idle : Hart → Bool
is_idle h = is_idle_at h.pc h.held

IsNestedAt-sie :
    (base sie : Bool) (pc : Pc) (xs : List Held)
    → IsNestedAt base sie pc xs
    → sie ≡ (if is_idle_at pc xs then base else false)
IsNestedAt-sie base sie running [] n = n
IsNestedAt-sie base sie running (x ∷ xs) n = n.0
IsNestedAt-sie base sie (attempt l t) xs n = n.0
IsNestedAt-sie base sie (spinning l t) xs n = n.0
IsNestedAt-sie base sie (trying l t) xs n = n.0
IsNestedAt-sie base sie (releasing t) xs n = n.0

idle-IsHart :
    (h : Hart) (pc : Pc) (xs : List Held) → is_idle_at pc xs ≡ true → IsNestedAt h.sie h.sie pc xs
idle-IsHart h running [] e = refl
idle-IsHart h running (x ∷ xs) e = cc
idle-IsHart h (attempt l t) xs e = cc
idle-IsHart h (spinning l t) xs e = cc
idle-IsHart h (trying l t) xs e = cc
idle-IsHart h (releasing t) xs e = cc

Orderly-IsHart : (base : Bool) (h h' : Hart) → Orderly h h' → IsHart base h → IsHart base h'
Orderly-IsHart base h h' start n = n
Orderly-IsHart base h h' (later {h' = g} r m o) n =
    Move-IsHart base m o (Orderly-IsHart base h g r n)

-- From a hart that holds nothing, as long as it drops what it holds in the reverse order, forgets no
-- token and does not enable interrupts itself: interrupts are off while it holds a guard or a token
-- or is in the lock's code, and else they are as they were.
pub Orderly-sie :
    (h h' : Hart) → is_idle h ≡ true → Orderly h h' → h'.sie ≡ (if is_idle h' then h.sie else false)
Orderly-sie h h' e r =
    IsNestedAt-sie h.sie h'.sie h'.pc h'.held
      (Orderly-IsHart h.sie h h' r (idle-IsHart h h.pc h.held e))
