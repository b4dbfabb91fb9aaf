-- ===== src/User/Start.antt =====
-- user/userstd/src/lib.rs, `_start`, and read_file and read_fd of user/userstd/src/io.rs.
use servos.Prelude.{ℕ, ◌*◌, none, [], ◌∷◌}
use servos.Fs.Path.{Bytes}
use servos.User.Calls.{Result, ok, err, Calls, Ends, panics}

-- "/dev/uart0"
abbrev uart_path : Bytes
uart_path = b'/' ∷ b'd' ∷ b'e' ∷ b'v' ∷ b'/' ∷ b'u' ∷ b'a' ∷ b'r' ∷ b't' ∷ b'0' ∷ []

-- OpenFlags::ReadWrite
abbrev read_write : ℕ
read_write = 4

module _ {W : Type 0} (c : Calls W) where
  abbrev after : {A B : Type 0} → Result A × W → (A → W → Result B × W) → Result B × W
  after (ok a, w) f = f a w
  after (err e, w) f = (err e, w)

  -- `unwrap` and `expect`
  abbrev unwrapped : {A : Type 0} → Result A × W → (A → W → Ends W) → Ends W
  unwrapped (ok a, w) f = f a w
  unwrapped (err e, w) f = panics w

  -- read_fd; the buffer has the size that stat says
  unfoldable pub read_fd : ℕ → W → Result Bytes × W
  read_fd fd w = after (c.stat fd w) (λ st w1. c.read fd none st.size w1)

  -- read_file
  unfoldable pub read_file : Bytes → W → Result Bytes × W
  read_file path w =
      after (c.open_file path 0 w)
        (λ fd w1. after (read_fd fd w1) (λ buf w2. (ok buf, (c.close fd w2).1)))

  -- _start: the two descriptors of the terminal, memory for the allocator from `bottom` to `top`, and
  -- `main`, which is given the two
  unfoldable pub start : (ℕ → ℕ → W → Ends W) → W → Ends W
  start main w = unwrapped (c.open_file uart_path read_write w) (λ out w1.
      unwrapped (c.open_file uart_path 0 w1) (λ input w2.
        unwrapped (c.sbrk 0 w2)
          (λ bottom w3. unwrapped (c.sbrk (1024 * 512) w3) (λ top w4. main bottom top w4))))
