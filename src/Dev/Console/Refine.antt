-- ===== src/Dev/Console/Refine.antt =====
-- The line buffer behaves as the screen that it stands for.
use servos.Prelude.{
  ℕ, ◌+◌, ◌-◌, ◌≡◌, ◌≢◌, refl, ap, ap₂, sym, ◌∙◌, true, false, List, [], ◌∷◌, ◌++◌, arith, ◌==◌,
  if◌then◌else◌, min, take, drop, append_assoc, eq-or-ne, ne→==, inl, inr,
}
use servos.Dev.Console.{Buffer, capacity, bytes_from, push_ch, enter, put_plain, read}
use servos.Dev.Console.Ring.{take-bytes_from, drop-bytes_from, bytes_from-split, length-bytes_from}
use servos.Dev.Console.Screen.{Screen, insert, commit, size, typed}
use servos.Dev.Console.Valid.{IsValid}
use servos.Dev.Console.Push.{screen, view, screen-eq, pushed, pushed-screen}
use servos.Dev.Console.Erase.{backspace_refines}

-- Reading hands out the bytes in the order in which they were entered, and takes them away.
pub read_refines :
    (b : Buffer) (len : ℕ)
    → IsValid b
    → ((read b len).0 ≡ take len (screen b).pending)
      × (screen (read b len).1 ≡ record (screen b) { pending = drop len (screen b).pending })
unfolding read screen
read_refines b len v = (
  sym (take-bytes_from b.buf b.read (b.rend - b.read) len),
  screen-eq
      (ap (bytes_from b.buf (b.read + min (b.rend - b.read) len)) (omega arith)
        ∙ sym (drop-bytes_from b.buf b.read (b.rend - b.read) len))
      refl refl,
)

size-screen : (b : Buffer) → IsValid b → size (screen b) ≡ b.wend - b.read
unfolding screen
size-screen b v = omega (
  arith,
  length-bytes_from b.buf b.read (b.rend - b.read),
  length-bytes_from b.buf b.rend (b.write - b.rend),
  length-bytes_from b.buf b.write (b.wend - b.write),
)

module _ (b : Buffer) (v : IsValid b) where
  module _ (room : b.wend - b.read ≢ capacity) where
    abbrev at_end : Buffer
    at_end = record b { write = b.wend }

    at_end-IsValid : IsValid at_end
    at_end-IsValid = omega arith

    abbrev line : List ℕ
    line = pushed at_end at_end-IsValid b'\n' room

    enter-eq :
        enter b
        ≡ (true, record b { buf = line; write = b.wend + 1; wend = b.wend + 1; rend = b.wend + 1 })
    unfolding enter push_ch
    enter-eq = ground arith

    line-screen :
        screen (record at_end { buf = line; write = b.wend + 1; wend = b.wend + 1 })
        ≡ insert (screen at_end) b'\n'
    line-screen = pushed-screen at_end at_end-IsValid b'\n' room

    enter-screen : screen (enter b).1 ≡ commit (screen b)
    unfolding screen bytes_from
    enter-screen = ap (λ p. screen p.1) enter-eq ∙ screen-eq entered (gone b.wend) (gone b.wend)
      where
        gone : (k : ℕ) → bytes_from line (k + 1) (k + 1 - (k + 1)) ≡ []
        gone k = nothing (k + 1) (k + 1 - (k + 1)) (omega arith)
          where
            nothing : (i z : ℕ) → z ≡ 0 → bytes_from line i z ≡ []
            nothing i z e = rw e

        entered :
            bytes_from line b.read (b.wend + 1 - b.read)
            ≡ bytes_from b.buf b.read (b.rend - b.read)
              ++ (bytes_from b.buf b.rend (b.write - b.rend)
                  ++ (bytes_from b.buf b.write (b.wend - b.write) ++ b'\n' ∷ []))
        entered =
            bytes_from-split line b.read b.rend (b.wend + 1) (omega arith) (omega arith)
            ∙ ap₂ ◌++◌ (ap (λ (s : Screen). s.pending) line-screen) (
                ap (λ (s : Screen). s.before) line-screen
                ∙ (ap (λ l. l ++ b'\n' ∷ [])
                      (bytes_from-split b.buf b.rend b.write b.wend (omega arith) (omega arith))
                    ∙ append_assoc (bytes_from b.buf b.rend (b.write - b.rend))
                        (bytes_from b.buf b.write (b.wend - b.write)) (b'\n' ∷ [])))

  enter-full : b.wend - b.read ≡ capacity → enter b ≡ (false, b)
  unfolding enter
  enter-full e = ground arith

  push-full : (ch : ℕ) → b.wend - b.read ≡ capacity → push_ch b ch ≡ (false, b)
  unfolding push_ch
  push-full ch e = ground arith

  push-eq :
      (ch : ℕ) (room : b.wend - b.read ≢ capacity)
      → push_ch b ch
        ≡ (true, record b { buf = pushed b v ch room; write = b.write + 1; wend = b.wend + 1 })
  unfolding push_ch
  push-eq ch room = ground arith

  pub enter_refines :
      view (enter b)
      ≡ (if size (screen b) == capacity then (false, screen b) else (true, commit (screen b)))
  enter_refines = elim (eq-or-ne (b.wend - b.read) capacity) [
    | inl full ↦ rw (size-screen b v, full) (ap view (enter-full full))
    | inr room ↦
        rw (size-screen b v, ne→== (b.wend - b.read) capacity room)
          (λ i. ((enter-eq room i).0, enter-screen room i))
  ]

  pub push_ch_refines :
      (ch : ℕ)
      → view (push_ch b ch)
        ≡ (if size (screen b) == capacity then (false, screen b) else (true, insert (screen b) ch))
  push_ch_refines ch = elim (eq-or-ne (b.wend - b.read) capacity) [
    | inl full ↦ rw (size-screen b v, full) (ap view (push-full ch full))
    | inr room ↦
        rw (size-screen b v, ne→== (b.wend - b.read) capacity room)
          (ap view (push-eq ch room) ∙ (λ i. (true, pushed-screen b v ch room i)))
  ]

-- A byte that is not part of an escape sequence does to the buffer what it does to the screen:
-- the delete key takes away the byte before the cursor, and any other key is refused with nothing
-- changed when the buffer is full, and is otherwise put in at the cursor, or, for the carriage
-- return, ends the line wherever the cursor stands and hands it to the readers.
pub put_plain_refines :
    (b : Buffer) (ch : ℕ) → IsValid b → ch ≢ 0x1b → view (put_plain b ch) ≡ typed (screen b) ch
unfolding put_plain
put_plain_refines b ch v ne = elim (eq-or-ne ch b'\r') [
  | inl cr ↦ rw cr (enter_refines b v)
  | inr other ↦ elim (eq-or-ne ch 0x7f) [
    | inl del ↦ rw del (λ i. (true, backspace_refines b v i))
    | inr plain ↦
        rw (ne→== ch 0x1b ne, ne→== ch b'\r' other, ne→== ch 0x7f plain) (push_ch_refines b v ch)
  ]
]
