-- ===== src/User/Ls.antt =====
-- user/ls/src/main.rs, without the form in which a size is printed.
use servos.Prelude.{
  ℕ, zero, suc, Bool, true, false, not, ◌&&◌, ◌||◌, none, some, List, [], ◌∷◌, take, ltb, ◌==◌,
  if◌then◌else◌,
}
use servos.Fs.Path.{Bytes}
use servos.Fs.InitRd.{DirEntry}
use servos.User.Calls.{
  ok, err, Calls, Ends, exits, panics, runs_on, not_there, blank_line, heading, entry,
}

-- `starts_with` of one byte
unfoldable pub starts_with : ℕ → Bytes → Bool
starts_with c [] = false
starts_with c (b ∷ bs) = b == c

unfoldable pub has_byte : ℕ → Bytes → Bool
has_byte c [] = false
has_byte c (b ∷ bs) = b == c || has_byte c bs

-- DirEntry's array of names
abbrev name_size : ℕ
name_size = 0x100

-- How a step of the program goes on.
pub data Listed (W : Type 0) : Type 0 where
  listed : Bool → W → Listed W
  crashed : W → Listed W
  endless : Listed W

module _ {W : Type 0} (c : Calls W) where
  -- the `while let` of printdir
  unfoldable pub print_entries : ℕ → ℕ → Bool → W → Listed W
  print_entries zero fd all w = endless
  print_entries (suc fuel) fd all w =
      let (r, w1) = c.readdir fd none w in
      let on_entry = λ (ent : DirEntry).
        (let name = take ent.name_len ent.name in
          let hidden = print_entries fuel fd all w1 in
          let shown = print_entries fuel fd all (c.say (entry name ent.entry_stat) w1) in
          if ltb name_size ent.name_len
          then crashed w1
          else if not (c.is_utf8 name)
          then crashed w1
          else if starts_with b'.' name && not all
          then hidden
          else shown) in
      elim r as (λ x. Listed W) [
        | err e ↦ listed true w1
        | ok none ↦ listed true w1
        | ok (some ent) ↦ on_entry ent
      ]

  -- what printdir prints of a file, or the loop over a directory
  unfoldable pub print_open : ℕ → ℕ → Bytes → Bool → W → Listed W
  print_open fuel fd dir all w =
      let (r, w1) = c.stat fd w in
      let entries = print_entries fuel fd all w1 in
      elim r as (λ x. Listed W) [
        | err e ↦ entries
        | ok st ↦
            if st.directory
            then entries
            else if c.is_utf8 dir
            then listed true (c.say (entry dir st) w1)
            else crashed w1
      ]

  -- printdir
  unfoldable pub printdir : ℕ → Bytes → Bool → Bool → W → Listed W
  printdir fuel dir name all w =
      let (r, w1) = c.open_file dir 0 w in
      elim r as (λ x. Listed W) [
        | err e ↦ if c.is_utf8 dir then listed false (c.say (not_there dir) w1) else crashed w1
        | ok fd ↦
            if not name
            then print_open fuel fd dir all w1
            else if c.is_utf8 dir
            then print_open fuel fd dir all (c.say (heading dir) w1)
            else crashed w1
      ]

  -- whether an option has an `a`
  unfoldable pub shows_all : List Bytes → Bool
  shows_all [] = false
  shows_all (arg ∷ args) = (starts_with b'-' arg && has_byte b'a' arg) || shows_all args

  -- the loop over the paths: `printed` and `ecode`
  unfoldable pub list_paths : ℕ → List Bytes → Bool → Bool → ℕ → W → Ends W
  list_paths fuel [] all printed ecode w =
      let first : Ends W = elim (printdir fuel (b'.' ∷ []) false all w) [
        | listed b w1 ↦ exits (if b then ecode else 1) w1
        | crashed w1 ↦ panics w1
        | endless ↦ runs_on
      ] in
      if printed then exits ecode w else first
  list_paths fuel (path ∷ paths) all printed ecode w =
      let skipped = list_paths fuel paths all printed ecode w in
      let w' = (if printed then c.say blank_line w else w) in
      let shown : Ends W = elim (printdir fuel path printed all w') [
        | listed b w1 ↦ list_paths fuel paths all true (if b then ecode else 1) w1
        | crashed w1 ↦ panics w1
        | endless ↦ runs_on
      ] in
      if starts_with b'-' path then skipped else shown

  -- `main`
  unfoldable pub main : ℕ → List Bytes → W → Ends W
  main fuel [] w = panics w
  main fuel (name ∷ args) w = list_paths fuel args (shows_all args) false 0 w
