-- ===== src/Fs/Result.antt =====
-- kernel/src/fs/mod.rs: the errors, the vnodes and what a call comes to. `panic` is a panic of the
-- kernel: an index or a slice out of range, or an arithmetic overflow.
use servos.Prelude.{ℕ, Bool}

pub data FsError : Type 0 where
  path_not_found no_mem read_only invalid_op unsupported corrupted_fs invalid_perms bad_va eof :
      FsError

pub record VNode : Type 0 where
  pub ino : ℕ
  pub directory : Bool
  pub readonly : Bool

-- `FsResult`, or a panic
pub data FsResult {ℓ} (A : Type ℓ) : Type ℓ where
  ok : A → FsResult A
  err : FsError → FsResult A
  panic : FsResult A

infixl 5 ◌>>=◌
-- the `?` of the source
abbrev pub ◌>>=◌ {ℓ κ} : {A : Type ℓ} {B : Type κ} → FsResult A → (A → FsResult B) → FsResult B
ok a >>= f = f a
err e >>= f = err e
panic >>= f = panic
