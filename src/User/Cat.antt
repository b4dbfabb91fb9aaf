-- ===== src/User/Cat.antt =====
-- user/cat/src/main.rs.
pub mod Device
use servos.Prelude.{ℕ, zero, suc, none, some, Option, List, [], ◌∷◌, if◌then◌else◌}
use servos.Fs.Path.{Bytes}
use servos.Fs.Result.{path_not_found}
use servos.Sys.Code.{SysError, from_fs}
use servos.User.Calls.{
  Result, ok, err, Calls, Ends, exits, panics, runs_on, not_there, read_error, Report,
}

-- the buffer of `main`
abbrev pub buf_size : ℕ
buf_size = 0x4000

-- the two arms for a file that cannot be opened
unfoldable pub report_of : Bytes → SysError → Report
report_of arg (from_fs path_not_found) = not_there arg
report_of arg e = read_error arg e

module _ {W : Type 0} (c : Calls W) where
  -- the `while let`; `none` when the fuel ran out
  unfoldable pub copy_all : ℕ → ℕ → W → Option W
  copy_all zero fd w = none
  copy_all (suc fuel) fd w =
      let (r, w1) = c.read fd none buf_size w in
      elim r [ err e ↦ some w1 | ok bs ↦ copy_all fuel fd (c.write 0 none bs w1).1 ]

  -- the loop over the arguments
  unfoldable pub cat_args : ℕ → List Bytes → ℕ → W → Ends W
  cat_args fuel [] ecode w = exits ecode w
  cat_args fuel (arg ∷ args) ecode w =
      let (r, w1) = c.open_file arg 0 w in
      let on_error = λ (e : SysError). cat_args fuel args 1 (c.say (report_of arg e) w1) in
      let on_file = λ (fd : ℕ). (elim (copy_all fuel fd w1) as (λ o. Ends W) [
        | none ↦ runs_on
        | some w2 ↦ cat_args fuel args ecode (c.close fd w2).1
      ]) in
      if c.is_utf8 arg
      then (elim r as (λ o. Ends W) [ err e ↦ on_error e | ok fd ↦ on_file fd ])
      else panics w

  -- `main`; the slice behind the program's name panics when there is no name
  unfoldable pub main : ℕ → List Bytes → W → Ends W
  main fuel [] w = panics w
  main fuel (name ∷ args) w = cat_args fuel args 0 w
