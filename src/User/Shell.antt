-- ===== src/User/Shell.antt =====
-- user/sh/src/main.rs. The shell's loop has no end: `round` is one turn of it.
pub mod Words
use servos.Prelude.{
  ℕ, zero, suc, ◌+◌, Bool, true, false, not, ◌&&◌, ◌||◌, Option, none, some, List, [], ◌∷◌, ◌++◌,
  length, ltb, ◌==◌, if◌then◌else◌,
}
use servos.Prelude.Outcome.{Outcome, done, panic}
use servos.Fs.Path.{Bytes, bytes_eq}
use servos.Fs.Result.{path_not_found}
use servos.Sys.Code.{SysError, from_fs}
use servos.User.Calls.{
  Result, ok, err, Calls, too_many_arguments, cd_error, spawn_error, background, prompt,
}

-- PATH
abbrev pub search_path : List Bytes
search_path = (b'/' ∷ b'b' ∷ b'i' ∷ b'n' ∷ []) ∷ (b'/' ∷ b's' ∷ b'b' ∷ b'i' ∷ b'n' ∷ []) ∷ []

abbrev pub cd_name : Bytes
cd_name = b'c' ∷ b'd' ∷ []

-- `slice.contains(&c)`
unfoldable pub has_byte : ℕ → Bytes → Bool
has_byte c [] = false
has_byte c (b ∷ bs) = c == b || has_byte c bs

abbrev to_front : ℕ → List Bytes → List Bytes
to_front b [] = []
to_front b (s ∷ rest) = (b ∷ s) ∷ rest

-- `slice.split(|&b| b == c)`
unfoldable pub split : ℕ → Bytes → List Bytes
split c [] = [] ∷ []
split c (b ∷ bs) = let rest = split c bs in if b == c then [] ∷ rest else to_front b rest

-- `filter(|a| !a.is_empty())`
unfoldable pub non_empty : List Bytes → List Bytes
non_empty [] = []
non_empty ([] ∷ rest) = non_empty rest
non_empty ((b ∷ bs) ∷ rest) = (b ∷ bs) ∷ non_empty rest

-- the words of a command
unfoldable pub words : Bytes → List Bytes
words cmd = non_empty (split b' ' cmd)

-- the loop over `cmd[1..]`: the arguments, and whether one of them was `&`
unfoldable pub arguments : List Bytes → List Bytes × Bool
arguments [] = ([], false)
arguments (arg ∷ rest) =
    let (args, bg) = arguments rest in
    if bytes_eq arg (b'&' ∷ []) then (args, true) else (arg ∷ args, bg)

abbrev is_missing : SysError → Bool
is_missing (from_fs path_not_found) = true
is_missing e = false

module _ {W : Type 0} (c : Calls W) where
  -- read_buf; `none` when the fuel ran out
  unfoldable pub read_buf : ℕ → ℕ → W → Option (Bytes × W)
  read_buf zero n w = none
  read_buf (suc fuel) n w =
      let (r, w') = c.read 1 none n w in
      let again = read_buf fuel n w' in
      elim r [ err e ↦ again | ok [] ↦ again | ok (b ∷ bs) ↦ some (b ∷ bs, w') ]

  -- try_spawn_in_path
  unfoldable pub try_spawn_in_path : List Bytes → Bytes → List Bytes → W → Option ℕ × W
  try_spawn_in_path [] cmd args w = (none, w)
  try_spawn_in_path (dir ∷ path) cmd args w =
      let (r, w') = c.spawn (dir ++ (b'/' ∷ cmd)) args w in
      let rest = try_spawn_in_path path cmd args w' in
      elim r [ ok pid ↦ (some pid, w') | err e ↦ rest ]

  -- the end of `parse_cmd`
  unfoldable pub started : ℕ → Bool → W → ℕ × W
  started pid true w = (0, c.say (background pid) w)
  started pid false w =
      let (r, w') = c.waitpid pid w in elim r [ ok code ↦ (code, w') | err e ↦ (0, w') ]

  -- the arm of a command that is not `cd`
  unfoldable pub run_program : Bytes → Bytes → List Bytes → W → ℕ × W
  run_program raw name rest w =
      let (args, bg) = arguments rest in
      let (r, w1) = c.spawn name args w in
      elim r [
        | ok pid ↦ started pid bg w1
        | err e ↦
            if is_missing e && not (has_byte b'/' name)
            then (let (found, w2) = try_spawn_in_path search_path name args w1 in
                elim found [
                  | some pid ↦ started pid bg w2
                  | none ↦ (0, c.say (spawn_error raw e) w2)
                ])
            else (0, c.say (spawn_error raw e) w1)
      ]

  -- the arm of `cd`, on the words behind it
  unfoldable pub change_dir : List Bytes → W → Outcome (ℕ × W)
  change_dir [] w = panic
  change_dir (dir ∷ []) w =
      let (r, w') = c.chdir dir w in
      elim r [ ok u ↦ done (0, w') | err e ↦ done (0, c.say (cd_error e) w') ]
  change_dir (dir ∷ more ∷ rest) w = done (0, c.say too_many_arguments w)

  -- parse_cmd; `cmd[0]` panics when there is no word
  unfoldable pub parse_cmd : Bytes → List Bytes → W → Outcome (ℕ × W)
  parse_cmd raw [] w = panic
  parse_cmd raw (name ∷ rest) w =
      if bytes_eq name cd_name then change_dir rest w else done (run_program raw name rest w)

  -- the `for` over the lines of the buffer; `from_utf8(cmd).unwrap()` may panic
  unfoldable pub run_lines : List Bytes → ℕ → W → Outcome (ℕ × W)
  run_lines [] last w = done (last, w)
  run_lines (cmd ∷ lines) last w =
      let skipped = run_lines lines last w in
      let ran = (elim (parse_cmd cmd (words cmd) w) as (λ o. Outcome (ℕ × W)) [
        | panic ↦ panic
        | done (code, w') ↦ run_lines lines code w'
      ]) in
      elim (words cmd) [ [] ↦ skipped | x ∷ xs ↦ if c.is_utf8 cmd then ran else panic ]

  -- the buffer of `main`
  unfoldable pub round : ℕ → ℕ → W → Option (Outcome (ℕ × W))
  round fuel last w = elim (read_buf fuel 0x1000 (c.say (prompt last) w)) [
    | none ↦ none
    | some (bs, w') ↦ some (run_lines (split b'\n' bs) last w')
  ]
