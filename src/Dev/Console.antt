-- ===== src/Dev/Console.antt =====
-- The line buffer of kernel/src/dev/console.rs: a ring of 256 bytes that holds the lines already
-- entered and the line under edit. What `put` echoes to the terminal is output only, and is not
-- modelled. The four positions only grow with the bytes received, and are plain numbers.
pub mod Ring
pub mod Screen
pub mod Valid
pub mod Push
pub mod Erase
pub mod Refine
mod Tests
use servos.Prelude.{
  ℕ, zero, suc, ◌+◌, ◌-◌, ◌%◌, min, Bool, true, false, Option, none, some, List, [], ◌∷◌, set,
  get_or, replicate, ◌==◌, ltb, ◌&&◌, ◌||◌, if◌then◌else◌,
}

abbrev pub capacity : ℕ
capacity = 256

pub record Buffer : Type 0 where
  pub buf : List ℕ
  pub read : ℕ
  pub write : ℕ
  pub wend : ℕ
  pub rend : ℕ
  pub esc : Option ℕ

-- Buffer::new
abbrev pub new : Buffer
new = record { buf = replicate capacity 0; read = 0; write = 0; wend = 0; rend = 0; esc = none }

-- `self.buf[i % self.buf.len()]`
unfoldable pub byte_at : List ℕ → ℕ → ℕ
byte_at buf i = get_or buf (i % capacity) 0

unfoldable pub put_at : List ℕ → ℕ → ℕ → List ℕ
put_at buf i b = set buf (i % capacity) b

-- `for i in (w..w + n).rev()`: each byte moves one place up
unfoldable pub shift_up : ℕ → ℕ → List ℕ → List ℕ
shift_up zero w buf = buf
shift_up (suc n) w buf = shift_up n w (put_at buf (w + n + 1) (byte_at buf (w + n)))

-- `for i in w..w + n`: each byte moves one place down
unfoldable pub shift_down : ℕ → ℕ → List ℕ → List ℕ
shift_down zero w buf = buf
shift_down (suc n) w buf = shift_down n (w + 1) (put_at buf w (byte_at buf (w + 1)))

-- Buffer::push_ch
unfoldable pub push_ch : Buffer → ℕ → Bool × Buffer
push_ch b ch = if b.wend - b.read == capacity then (false, b) else (
  true,
  record b {
    buf = put_at (shift_up (b.wend - b.write) b.write b.buf) b.write ch;
    write = b.write + 1;
    wend = b.wend + 1;
  },
)

-- Buffer::handle_esc
unfoldable pub handle_esc : Buffer → ℕ → ℕ → Buffer
handle_esc b esc ch =
    if esc == 0x1b && ch == b'['
      || esc == b'[' && ch == b'1'
      || esc == b'1' && ch == b';'
      || esc == b';' && ch == b'5'
    then record b { esc = some ch }
    else if esc == b'[' && ch == b'D'
    then record b { write = if ltb b.rend b.write then b.write - 1 else b.write; esc = none }
    else if esc == b'[' && ch == b'C'
    then record b { write = if ltb b.write b.wend then b.write + 1 else b.write; esc = none }
    else record b { esc = none }

-- the carriage return: the line goes to the reader
unfoldable pub enter : Buffer → Bool × Buffer
unfolding push_ch
enter b =
    if b.wend - b.read == capacity
    then (false, b)
    else (let (pushed, b') = push_ch (record b { write = b.wend }) b'\n' in
        (true, record b' { rend = b'.wend }))

-- the delete key
unfoldable pub backspace : Buffer → Buffer
backspace b =
    if ltb b.rend b.write
    then record b {
      buf =
          if b.wend - 1 == b.write - 1
          then b.buf
          else shift_down (b.wend - 1 - (b.write - 1)) (b.write - 1) b.buf;
      write = b.write - 1;
      wend = b.wend - 1;
    }
    else b

-- the bytes of `put` outside an escape sequence
unfoldable pub put_plain : Buffer → ℕ → Bool × Buffer
put_plain b ch =
    if ch == 0x1b
    then (true, record b { esc = some ch })
    else if ch == b'\r'
    then enter b
    else if ch == 0x7f
    then (true, backspace b)
    else push_ch b ch

-- Buffer::put
unfoldable pub put : Buffer → ℕ → Bool × Buffer
put b ch = elim b.esc [ none ↦ put_plain b ch | some esc ↦ (true, handle_esc b esc ch) ]

-- the `n` bytes from position `i`
unfoldable pub bytes_from : List ℕ → ℕ → ℕ → List ℕ
bytes_from buf i zero = []
bytes_from buf i (suc n) = byte_at buf i ∷ bytes_from buf (i + 1) n

-- Buffer::read, into a slice of `len` bytes
unfoldable pub read : Buffer → ℕ → List ℕ × Buffer
read b len =
    let count = min (b.rend - b.read) len in
    (bytes_from b.buf b.read count, record b { read = b.read + count })
