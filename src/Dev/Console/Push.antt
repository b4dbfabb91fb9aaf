-- ===== src/Dev/Console/Push.antt =====
-- The screen of a line buffer, and what a byte put in at the cursor does to it.
use servos.Prelude.{ℕ, ◌+◌, ◌-◌, ◌≤◌, ◌<◌, ◌≡◌, ◌≢◌, ap, ap₂, ◌∙◌, Bool, List, [], ◌∷◌, ◌++◌, arith}
use servos.Dev.Console.{Buffer, capacity, byte_at, put_at, shift_up, bytes_from}
use servos.Dev.Console.Ring.{
  byte_at-put_at, byte_at-shift_up, bytes_from-agree, bytes_from-append, length-shift_up,
}
use servos.Dev.Console.Screen.{Screen, insert}
use servos.Dev.Console.Valid.{IsValid}

unfoldable pub screen : Buffer → Screen
screen b = record {
  pending = bytes_from b.buf b.read (b.rend - b.read);
  before = bytes_from b.buf b.rend (b.write - b.rend);
  after = bytes_from b.buf b.write (b.wend - b.write);
}

-- what a call reports, and the screen that it leaves
abbrev pub view : Bool × Buffer → Bool × Screen
view p = (p.0, screen p.1)

pub screen-eq :
    {p p' q q' r r' : List ℕ}
    → p ≡ p'
    → q ≡ q'
    → r ≡ r'
    → ◌≡◌ {A = Screen}
        (record { pending = p; before = q; after = r })
        (record { pending = p'; before = q'; after = r' })
screen-eq a b c = λ i. record { pending = a i; before = b i; after = c i }

module _ (b : Buffer) (v : IsValid b) (ch : ℕ) (room : b.wend - b.read ≢ capacity) where
  abbrev pub pushed : List ℕ
  pushed = put_at (shift_up (b.wend - b.write) b.write b.buf) b.write ch

  pushed-low : (j : ℕ) → b.read ≤ j → j < b.write → byte_at pushed j ≡ byte_at b.buf j
  pushed-low j lo hi = ground (
    arith,
    byte_at-put_at (shift_up (b.wend - b.write) b.write b.buf)
        (length-shift_up (b.wend - b.write) b.write b.buf ∙ v.size) b.write j ch (omega arith)
        (omega arith),
    byte_at-shift_up (b.wend - b.write) b.write b.buf j v.size (omega arith) (omega arith)
        (omega arith),
  )

  pushed-here : byte_at pushed b.write ≡ ch
  pushed-here = ground (
    arith,
    byte_at-put_at (shift_up (b.wend - b.write) b.write b.buf)
        (length-shift_up (b.wend - b.write) b.write b.buf ∙ v.size) b.write b.write ch (omega arith)
        (omega arith),
  )

  pushed-high : (j : ℕ) → b.write ≤ j → j < b.wend → byte_at pushed (j + 1) ≡ byte_at b.buf j
  pushed-high j lo hi = ground (
    arith,
    byte_at-put_at (shift_up (b.wend - b.write) b.write b.buf)
        (length-shift_up (b.wend - b.write) b.write b.buf ∙ v.size) b.write (j + 1) ch (omega arith)
        (omega arith),
    byte_at-shift_up (b.wend - b.write) b.write b.buf (j + 1) v.size (omega arith) (omega arith)
        (omega arith),
    ap (byte_at b.buf) (back j),
  )
    where
      back : (j : ℕ) → j + 1 - 1 ≡ j
      back j = omega arith

  pub pushed-screen :
      screen (record b { buf = pushed; write = b.write + 1; wend = b.wend + 1 })
      ≡ insert (screen b) ch
  unfolding screen bytes_from
  pushed-screen =
      screen-eq
        (bytes_from-agree b.buf pushed b.read b.read (b.rend - b.read)
          (λ k lt. pushed-low (b.read + k) (omega arith) (omega arith)))
        before' after'
    where
      before' :
          bytes_from pushed b.rend (b.write + 1 - b.rend)
          ≡ bytes_from b.buf b.rend (b.write - b.rend) ++ ch ∷ []
      before' =
          ap (bytes_from pushed b.rend) (omega arith)
          ∙ (bytes_from-append pushed b.rend (b.write - b.rend) 1
              ∙ ap₂ ◌++◌
                  (bytes_from-agree b.buf pushed b.rend b.rend (b.write - b.rend)
                    (λ k lt. pushed-low (b.rend + k) (omega arith) (omega arith)))
                  (ap (λ (x : ℕ). byte_at pushed x ∷ []) (omega arith)
                    ∙ ap (λ (x : ℕ). x ∷ []) pushed-here))

      after' :
          bytes_from pushed (b.write + 1) (b.wend + 1 - (b.write + 1))
          ≡ bytes_from b.buf b.write (b.wend - b.write)
      after' =
          ap (bytes_from pushed (b.write + 1)) (omega arith)
          ∙ bytes_from-agree b.buf pushed b.write (b.write + 1) (b.wend - b.write) (λ k lt.
            ap (byte_at pushed) (omega arith)
            ∙ pushed-high (b.write + k) (omega arith) (omega arith))
