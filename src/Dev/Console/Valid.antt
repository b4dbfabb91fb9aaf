-- ===== src/Dev/Console/Valid.antt =====
-- The order of the four positions, which every operation keeps: no subtraction of the source goes
-- below zero and no byte of the ring is overwritten before it has been read.
use servos.Prelude.{ℕ, ◌+◌, ◌-◌, ◌≤◌, ◌≡◌, refl, length, arith, Option, none, some, List, [], ◌∷◌}
use servos.Dev.Console.Ring.{length-put_at, length-shift_up, length-shift_down}
use servos.Dev.Console.{
  Buffer, capacity, push_ch, handle_esc, enter, backspace, put_plain, put, read, shift_up,
}

pub record IsValid (b : Buffer) : Type 0 where
  pub size : length b.buf ≡ capacity
  pub unread : b.read ≤ b.rend
  pub entered : b.rend ≤ b.write
  pub cursor : b.write ≤ b.wend
  pub room : b.wend ≤ b.read + capacity

pub push_ch-IsValid : (b : Buffer) (ch : ℕ) → IsValid b → IsValid (push_ch b ch).1
unfolding push_ch
push_ch-IsValid b ch v = ground (
  arith,
  length-put_at (shift_up (b.wend - b.write) b.write b.buf) b.write ch,
  length-shift_up (b.wend - b.write) b.write b.buf,
)

pub enter-IsValid : (b : Buffer) → IsValid b → IsValid (enter b).1
unfolding enter
enter-IsValid b v = ground (
  arith,
  length-put_at (shift_up (b.wend - b.wend) b.wend b.buf) b.wend b'\n',
  length-shift_up (b.wend - b.wend) b.wend b.buf,
)

pub backspace-IsValid : (b : Buffer) → IsValid b → IsValid (backspace b)
unfolding backspace
backspace-IsValid b v =
    ground (arith, length-shift_down (b.wend - 1 - (b.write - 1)) (b.write - 1) b.buf)

pub handle_esc-IsValid : (b : Buffer) (esc ch : ℕ) → IsValid b → IsValid (handle_esc b esc ch)
unfolding handle_esc
handle_esc-IsValid b esc ch v = ground arith

pub put_plain-IsValid : (b : Buffer) (ch : ℕ) → IsValid b → IsValid (put_plain b ch).1
unfolding put_plain
put_plain-IsValid b ch v =
    ground (arith, enter-IsValid b v, backspace-IsValid b v, push_ch-IsValid b ch v)

-- Every byte from the terminal, in an escape sequence or not, leaves the positions in order.
pub put-IsValid : (b : Buffer) (ch : ℕ) → IsValid b → IsValid (put b ch).1
unfolding put
put-IsValid b ch v = go b.esc refl
  where
    go : (o : Option ℕ) → b.esc ≡ o → IsValid (put b ch).1
    go none e = rw (e, put) (put_plain-IsValid b ch v)
    go (some esc) e = rw (e, put) (handle_esc-IsValid b esc ch v)

pub read-IsValid : (b : Buffer) (len : ℕ) → IsValid b → IsValid (read b len).1
unfolding read
read-IsValid b len v = omega arith

-- A run of the console: bytes that arrive, and reads.
pub data Event : Type 0 where
  arrives : ℕ → Event
  reads : ℕ → Event

unfoldable pub step : Buffer → Event → Buffer
step b (arrives ch) = (put b ch).1
step b (reads len) = (read b len).1

unfoldable pub run : Buffer → List Event → Buffer
unfolding step
run b [] = b
run b (e ∷ es) = run (step b e) es

step-IsValid : (b : Buffer) (e : Event) → IsValid b → IsValid (step b e)
unfolding step
step-IsValid b (arrives ch) v = put-IsValid b ch v
step-IsValid b (reads len) v = read-IsValid b len v

-- Whatever arrives and is read, in any order, the positions stay in order.
pub run-IsValid : (b : Buffer) (es : List Event) → IsValid b → IsValid (run b es)
unfolding run
run-IsValid b [] v = v
run-IsValid b (e ∷ es) v = run-IsValid (step b e) es (step-IsValid b e v)
