-- ===== src/Dev/Console/Ring.antt =====
-- The ring, read at positions: what the shifts of the line buffer do to each byte.
use servos.Prelude.{
  ℕ, zero, suc, ◌+◌, ◌-◌, ◌%◌, ◌≤◌, ◌<◌, ◌≡◌, ◌≢◌, refl, ap, ap₂, sym, ◌∙◌, List, ◌∷◌, ◌++◌, length,
  take, drop, min, length-set, get_or-set_self, get_or-set_ne, arith, ltb, leb, ◌&&◌, ◌==◌,
  if◌then◌else◌, eq-or-ne, inl, inr,
}
use servos.Dev.Console.Screen.{init}
use servos.Dev.Console.{capacity, byte_at, put_at, shift_up, shift_down, bytes_from}

module _ (buf : List ℕ) (h : length buf ≡ capacity) where
  -- Within one turn of the ring two positions share no byte.
  pub byte_at-put_at :
      (i j v : ℕ)
      → i < j + capacity
      → j < i + capacity
      → byte_at (put_at buf i v) j ≡ (if i == j then v else byte_at buf j)
  unfolding byte_at put_at
  byte_at-put_at i j v p q = elim (eq-or-ne i j) [
    | inl e ↦ rw (← e) (get_or-set_self buf (i % capacity) v 0 (omega arith) ∙ same)
    | inr ne ↦ get_or-set_ne buf (i % capacity) (j % capacity) v 0 (omega arith) ∙ ground arith
  ]
    where
      same : v ≡ (if i == i then v else byte_at buf i)
      same = ground arith

pub length-put_at : (buf : List ℕ) (i v : ℕ) → length (put_at buf i v) ≡ length buf
unfolding put_at
length-put_at buf i v = length-set buf (i % capacity) v

pub length-shift_up : (n w : ℕ) (buf : List ℕ) → length (shift_up n w buf) ≡ length buf
unfolding shift_up
length-shift_up zero w buf = refl
length-shift_up (suc n) w buf =
    length-shift_up n w (put_at buf (w + n + 1) (byte_at buf (w + n)))
    ∙ length-put_at buf (w + n + 1) (byte_at buf (w + n))

pub length-shift_down : (n w : ℕ) (buf : List ℕ) → length (shift_down n w buf) ≡ length buf
unfolding shift_down
length-shift_down zero w buf = refl
length-shift_down (suc n) w buf =
    length-shift_down n (w + 1) (put_at buf w (byte_at buf (w + 1)))
    ∙ length-put_at buf w (byte_at buf (w + 1))

one_less : (j k : ℕ) → j ≡ k + 1 → j - 1 ≡ k
one_less j k e = omega arith

other : (i j v x : ℕ) → i ≢ j → (if i == j then v else x) ≡ x
other i j v x ne = ground arith

up_step :
    (w n j x y x' y' v : ℕ)
    → y' ≡ (if w + n + 1 == j then v else y)
    → (j ≤ w + n → w < j → x' ≡ x)
    → (j ≡ w + n + 1 → v ≡ x)
    → (if ltb w j && leb j (w + n) then x' else y')
      ≡ (if ltb w j && leb j (w + suc n) then x else y)
up_step w n j x y x' y' v e f g = ground arith

-- Moving `n` bytes up changes the places above `w`, and nothing else within a turn of the ring.
pub byte_at-shift_up :
    (n w : ℕ) (buf : List ℕ) (j : ℕ)
    → length buf ≡ capacity
    → n < capacity
    → w + n < j + capacity
    → j < w + capacity
    → byte_at (shift_up n w buf) j
      ≡ (if ltb w j && leb j (w + n) then byte_at buf (j - 1) else byte_at buf j)
unfolding shift_up
byte_at-shift_up zero w buf j h s p q = ground arith
byte_at-shift_up (suc n) w buf j h s p q =
    byte_at-shift_up n w buf' j (length-put_at buf (w + n + 1) v ∙ h) (omega arith) (omega arith) q
    ∙ up_step w n j (byte_at buf (j - 1)) (byte_at buf j) (byte_at buf' (j - 1)) (byte_at buf' j) v
        (byte_at-put_at buf h (w + n + 1) j v (omega arith) (omega arith))
        (λ le lt.
          byte_at-put_at buf h (w + n + 1) (j - 1) v (omega arith) (omega arith)
          ∙ other (w + n + 1) (j - 1) v (byte_at buf (j - 1)) (omega arith))
        (λ e. ap (byte_at buf) (sym (one_less j (w + n) e)))
  where
    v : ℕ
    v = byte_at buf (w + n)

    buf' : List ℕ
    buf' = put_at buf (w + n + 1) v

pub byte_at-shift_down :
    (n w : ℕ) (buf : List ℕ) (j : ℕ)
    → length buf ≡ capacity
    → n < capacity
    → w + n < j + capacity
    → j < w + capacity
    → byte_at (shift_down n w buf) j
      ≡ (if leb w j && ltb j (w + n) then byte_at buf (j + 1) else byte_at buf j)
unfolding shift_down
byte_at-shift_down zero w buf j h s p q = ground arith
byte_at-shift_down (suc n) w buf j h s p q = ground (
  arith,
  byte_at-shift_down n (w + 1) (put_at buf w (byte_at buf (w + 1))) j
      (length-put_at buf w (byte_at buf (w + 1)) ∙ h) (omega arith) (omega arith),
  byte_at-put_at buf h w j (byte_at buf (w + 1)) (omega arith) (omega arith),
  byte_at-put_at buf h w (j + 1) (byte_at buf (w + 1)) (omega arith),
  λ (e : j ≡ w). ap (λ (x : ℕ). byte_at buf (x + 1)) e,
)

suc_out : (n k : ℕ) → suc n + k ≡ suc (n + k)
suc_out n k = omega arith

pub bytes_from-append :
    (buf : List ℕ) (i n k : ℕ)
    → bytes_from buf i (n + k) ≡ bytes_from buf i n ++ bytes_from buf (i + n) k
unfolding bytes_from
bytes_from-append buf i zero k = ap₂ (bytes_from buf) (omega arith) (omega arith)
bytes_from-append buf i (suc n) k =
    ap (bytes_from buf i) (suc_out n k)
    ∙ ap (λ l. byte_at buf i ∷ l)
        (bytes_from-append buf (i + 1) n k
          ∙ ap (λ (x : ℕ). bytes_from buf (i + 1) n ++ bytes_from buf x k) (omega arith))

-- Two stretches with the same bytes are the same list.
pub bytes_from-agree :
    (buf buf' : List ℕ) (i i' n : ℕ)
    → ((k : ℕ) → k < n → byte_at buf' (i' + k) ≡ byte_at buf (i + k))
    → bytes_from buf' i' n ≡ bytes_from buf i n
unfolding bytes_from
bytes_from-agree buf buf' i i' zero h = refl
bytes_from-agree buf buf' i i' (suc n) h =
    ap₂ ◌∷◌ (at i' i 0 (omega arith) (omega arith) (h 0 (omega arith))) (
      bytes_from-agree buf buf' (i + 1) (i' + 1) n (λ k lt.
        at (i' + 1 + k) (i + 1 + k) (suc k) (omega arith) (omega arith) (h (suc k) (omega arith))))
  where
    at :
        (x y k : ℕ)
        → i' + k ≡ x
        → i + k ≡ y
        → byte_at buf' (i' + k) ≡ byte_at buf (i + k)
        → byte_at buf' x ≡ byte_at buf y
    at x y k e f g = rw (← e, ← f) g

-- A stretch from `i` to `k` cut at `j`.
pub bytes_from-split :
    (buf : List ℕ) (i j k : ℕ)
    → i ≤ j
    → j ≤ k
    → bytes_from buf i (k - i) ≡ bytes_from buf i (j - i) ++ bytes_from buf j (k - j)
bytes_from-split buf i j k p q =
    ap (bytes_from buf i) (cut i j k p q)
    ∙ (bytes_from-append buf i (j - i) (k - j)
        ∙ ap (λ (x : ℕ). bytes_from buf i (j - i) ++ bytes_from buf x (k - j)) (end i j p))
  where
    cut : (i j k : ℕ) → i ≤ j → j ≤ k → k - i ≡ (j - i) + (k - j)
    cut i j k p q = omega arith

    end : (i j : ℕ) → i ≤ j → i + (j - i) ≡ j
    end i j p = omega arith

pub length-bytes_from : (buf : List ℕ) (i n : ℕ) → length (bytes_from buf i n) ≡ n
unfolding bytes_from
length-bytes_from buf i zero = refl
length-bytes_from buf i (suc n) = ap suc (length-bytes_from buf (i + 1) n)

pub take-bytes_from :
    (buf : List ℕ) (i n k : ℕ) → take k (bytes_from buf i n) ≡ bytes_from buf i (min n k)
unfolding bytes_from
take-bytes_from buf i n zero = ap (bytes_from buf i) (none_left n)
  where
    none_left : (n : ℕ) → 0 ≡ min n 0
    none_left n = omega arith
take-bytes_from buf i zero (suc k) = ap (bytes_from buf i) (none_left k)
  where
    none_left : (n : ℕ) → 0 ≡ min 0 (suc n)
    none_left n = omega arith
take-bytes_from buf i (suc n) (suc k) =
    ap (λ l. byte_at buf i ∷ l) (take-bytes_from buf (i + 1) n k)
    ∙ ap (bytes_from buf i) (one_more n k)
  where
    one_more : (n k : ℕ) → suc (min n k) ≡ min (suc n) (suc k)
    one_more n k = omega arith

pub drop-bytes_from :
    (buf : List ℕ) (i n k : ℕ)
    → drop k (bytes_from buf i n) ≡ bytes_from buf (i + min n k) (n - min n k)
unfolding bytes_from
drop-bytes_from buf i n zero = ap₂ (bytes_from buf) (omega arith) (omega arith)
drop-bytes_from buf i zero (suc k) = ap (bytes_from buf (i + min 0 (suc k))) (none_left k)
  where
    none_left : (k : ℕ) → 0 ≡ 0 - min 0 (suc k)
    none_left k = omega arith
drop-bytes_from buf i (suc n) (suc k) =
    drop-bytes_from buf (i + 1) n k ∙ ap₂ (bytes_from buf) (omega arith) (omega arith)

-- All but the last byte of a stretch.
pub init-bytes_from :
    (buf : List ℕ) (i n : ℕ) → init (bytes_from buf i n) ≡ bytes_from buf i (n - 1)
unfolding init bytes_from
init-bytes_from buf i zero = ap (bytes_from buf i) none_left
  where
    none_left : 0 ≡ 0 - 1
    none_left = omega arith
init-bytes_from buf i (suc zero) = ap (bytes_from buf i) none_left
  where
    none_left : 0 ≡ suc zero - 1
    none_left = omega arith
init-bytes_from buf i (suc (suc n)) =
    ap (λ l. byte_at buf i ∷ l) (init-bytes_from buf (i + 1) (suc n))
    ∙ ap (bytes_from buf i) (one_less n)
  where
    one_less : (n : ℕ) → suc (suc n - 1) ≡ suc (suc n) - 1
    one_less n = omega arith
