-- ===== src/User/Small.antt =====
-- user/echo, user/kill, user/init and user/shutdown: `main` of each, on its arguments.
use servos.Prelude.{ℕ, suc, Bool, false, none, some, List, [], ◌∷◌, ◌==◌, ◌||◌, if◌then◌else◌}
use servos.Fs.Path.{Bytes, bytes_eq}
use servos.User.Calls.{
  ok, err, Calls, Ends, exits, panics, no_pid, killed, kill_error, shutdown_error, not_first,
  booted,
}

-- the path of the shell
abbrev shell_path : Bytes
shell_path = b'/' ∷ b'b' ∷ b'i' ∷ b'n' ∷ b'/' ∷ b's' ∷ b'h' ∷ []

module _ {W : Type 0} (c : Calls W) where
  -- what a write to the screen leaves
  abbrev put_text : Bytes → W → W
  put_text bs w = (c.write 0 none bs w).1

  -- the loop of echo from argument `i` on
  unfoldable pub echo_args : ℕ → List Bytes → W → W
  echo_args i [] w = w
  echo_args i (arg ∷ args) w =
      let w' = (if i == 0 then w else put_text (b' ' ∷ []) w) in
      echo_args (suc i) args (put_text arg w')

  -- echo; the slice behind the program's name panics when there is no name
  unfoldable pub echo : List Bytes → W → Ends W
  echo [] w = panics w
  echo (name ∷ args) w = exits 0 (put_text (b'\n' ∷ []) (echo_args 0 args w))

  -- one argument of kill
  unfoldable pub kill_one : Bytes → W → W
  kill_one arg w = elim (c.parse_u32 arg) [
    | none ↦ c.say (no_pid arg) w
    | some pid ↦
        let (r, w') = c.kill pid w in
        elim r [ ok u ↦ c.say (killed pid) w' | err e ↦ c.say (kill_error pid e) w' ]
  ]

  unfoldable pub kill_args : List Bytes → W → W
  kill_args [] w = w
  kill_args (arg ∷ args) w = kill_args args (kill_one arg w)

  unfoldable pub kill : List Bytes → W → Ends W
  kill [] w = panics w
  kill (name ∷ args) w = exits 0 (kill_args args w)

  -- init, which never returns from the shell but by a panic
  unfoldable pub init : W → Ends W
  init w =
      let (pid, w1) = c.getpid w in
      let (r, w3) = c.spawn shell_path [] (c.say booted w1) in
      let started : Ends W = elim r [ err e ↦ panics w3 | ok sh ↦ panics (c.waitpid sh w3).1 ] in
      if pid == 0 then started else exits 1 (c.say not_first w1)

  -- whether an argument of shutdown is `-r`
  unfoldable pub wants_restart : List Bytes → Bool
  wants_restart [] = false
  wants_restart (arg ∷ args) = bytes_eq arg (b'-' ∷ b'r' ∷ []) || wants_restart args

  -- shutdown, when the call comes back
  unfoldable pub shutdown : List Bytes → W → Ends W
  shutdown [] w = panics w
  shutdown (name ∷ args) w =
      let (e, w') = c.shutdown (wants_restart args) w in exits 1 (c.say (shutdown_error e) w')
