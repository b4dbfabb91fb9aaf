-- ===== src/Fs/InitRd/Load/Le.antt =====
-- Words in memory, lowest byte first, and the fields of a record that is laid out in order.
use servos.Prelude.{
  ℕ, zero, suc, ◌+◌, ◌*◌, ◌/◌, ◌%◌, ◌<◌, ◌≡◌, refl, ap, sym, ◌∙◌, [], ◌∷◌, ◌++◌, length, take, drop,
  take-append, drop-append, arith,
}
use servos.Fs.Path.{Bytes}
use servos.Fs.InitRd.{from_le_bytes}
use servos.Fs.InitRd.Read.{drop-drop}
use servos.Fs.InitRd.Load.{field}

-- `n` bytes of a word
unfoldable pub to_le_bytes : ℕ → ℕ → Bytes
to_le_bytes zero x = []
to_le_bytes (suc n) x = x % 256 ∷ to_le_bytes n (x / 256)

-- the words of `n` bytes
abbrev pub end_of : ℕ → ℕ
end_of zero = 1
end_of (suc n) = 256 * end_of n

pub length-to_le_bytes : (n x : ℕ) → length (to_le_bytes n x) ≡ n
unfolding to_le_bytes
length-to_le_bytes zero x = refl
length-to_le_bytes (suc n) x = ap suc (length-to_le_bytes n (x / 256))

pub from_le_bytes-to_le_bytes : (n x : ℕ) → x < end_of n → from_le_bytes (to_le_bytes n x) ≡ x
unfolding to_le_bytes from_le_bytes
from_le_bytes-to_le_bytes zero x h = omega arith
from_le_bytes-to_le_bytes (suc n) x h =
    omega (arith, from_le_bytes-to_le_bytes n (x / 256) (omega arith))

-- A field behind a prefix of the record.
pub field-append :
    (before : Bytes) (off n x : ℕ) (rest : Bytes)
    → length before ≡ off
    → x < end_of n
    → field off n (before ++ (to_le_bytes n x ++ rest)) ≡ x
unfolding field
field-append before off n x rest e h =
    ap (λ l. from_le_bytes (take n l)) (drop-append off before (to_le_bytes n x ++ rest) e)
    ∙ (ap from_le_bytes (take-append n (to_le_bytes n x) rest (length-to_le_bytes n x))
        ∙ from_le_bytes-to_le_bytes n x h)

-- A field behind a part of the record of `k` bytes.
pub field-skip :
    (k off n : ℕ) (xs ys : Bytes) → length xs ≡ k → field (k + off) n (xs ++ ys) ≡ field off n ys
unfolding field
field-skip k off n xs ys e =
    ap (λ l. from_le_bytes (take n l))
      (sym (drop-drop k off (xs ++ ys)) ∙ ap (drop off) (drop-append k xs ys e))

-- the first field
pub field-first : (n x : ℕ) (rest : Bytes) → x < end_of n → field 0 n (to_le_bytes n x ++ rest) ≡ x
field-first n x rest h = field-append [] 0 n x rest refl h

-- what is behind a word
pub field_behind :
    (m off n x : ℕ) (rest : Bytes) → field (m + off) n (to_le_bytes m x ++ rest) ≡ field off n rest
field_behind m off n x rest = field-skip m off n (to_le_bytes m x) rest (length-to_le_bytes m x)
