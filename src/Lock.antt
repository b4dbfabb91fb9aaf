-- ===== src/Lock.antt =====
-- kernel/src/lock.rs, and the interrupt tokens of kernel/src/riscv.rs. A lock is a number, and its
-- word tells whether it is locked. A hart holds guards and tokens, the newest first; each remembers
-- whether interrupts were enabled before.
pub mod Laws
pub mod Exclusive
pub mod Nested
pub mod Handover
mod Tests
use servos.Prelude.{
  ℕ, zero, suc, ◌+◌, ◌≡◌, Bool, true, false, Option, none, some, List, [], ◌∷◌, get_elem?, set,
  ◌==◌, if◌then◌else◌,
}

-- A guard of a lock with its token, or a token that was kept without the guard.
pub data Held : Type 0 where
  guard : ℕ → Bool → Held
  token : Bool → Held

-- Where a hart stands: outside the code of the lock; in `lock`, before the compare-exchange and in
-- the inner loop; in `try_lock`, before the compare-exchange; in `drop` of a guard, behind `unlock`.
pub data Pc : Type 0 where
  running : Pc
  attempt spinning trying : ℕ → Bool → Pc
  releasing : Bool → Pc

-- `sie` is SSTATUS_SIE of the hart's sstatus.
pub record Hart : Type 0 where
  pub sie : Bool
  pub pc : Pc
  pub held : List Held

-- the words of all locks
abbrev pub Words : Type 0
Words = ℕ → Bool

unfoldable pub store : ℕ → Bool → Words → Words
store l b w l' = if l == l' then b else w l'

-- disable_intr
unfoldable pub disable_intr : Hart → Bool × Hart
disable_intr h = (h.sie, record h { sie = false })

-- enable_intr
unfoldable pub enable_intr : Hart → Hart
enable_intr h = record h { sie = true }

-- InterruptToken::drop
unfoldable pub drop_token : Bool → Hart → Hart
unfolding enable_intr
drop_token enabled h = if enabled then enable_intr h else h

-- SpinLocked::unlock
unfoldable pub unlock : ℕ → Words → Words
unfolding store
unlock l w = store l false w

unfoldable pub remove : {A : Type 0} → ℕ → List A → List A
remove i [] = []
remove zero (x ∷ xs) = xs
remove (suc i) (x ∷ xs) = x ∷ remove i xs

-- the entry of `lock` or `try_lock`
unfoldable pub ask : (ℕ → Bool → Pc) → ℕ → Hart → Hart
unfolding disable_intr
ask at l h = let (enabled, h') = disable_intr h in record h' { pc = at l enabled }

-- the compare-exchange has set the word, and Guard::new
unfoldable pub locked : ℕ → Bool → Hart → Hart
locked l t h = record h { pc = running; held = guard l t ∷ h.held }

-- One access to shared memory by one hart, or one step of its own. The program of the hart is left
-- open: outside the lock's code it may call any operation on any lock, and drop whatever it holds.
pub data Move (w : Words) (h : Hart) : Words → Hart → Type 0 where
  -- SpinLocked::lock; the weak compare-exchange may fail for no reason
  lock_call : (l : ℕ) → h.pc ≡ running → Move w h w (ask attempt l h)
  lock_win :
      (l : ℕ) (t : Bool)
      → h.pc ≡ attempt l t
      → w l ≡ false
      → Move w h (store l true w) (locked l t h)
  lock_miss : (l : ℕ) (t : Bool) → h.pc ≡ attempt l t → Move w h w (record h { pc = spinning l t })
  spin : (l : ℕ) (t : Bool) → h.pc ≡ spinning l t → w l ≡ true → Move w h w h
  spin_out :
      (l : ℕ) (t : Bool)
      → h.pc ≡ spinning l t
      → w l ≡ false
      → Move w h w (record h { pc = attempt l t })
  -- SpinLocked::try_lock; the token of a failed attempt is dropped
  try_call : (l : ℕ) → h.pc ≡ running → Move w h w (ask trying l h)
  try_win :
      (l : ℕ) (t : Bool)
      → h.pc ≡ trying l t
      → w l ≡ false
      → Move w h (store l true w) (locked l t h)
  try_miss :
      (l : ℕ) (t : Bool)
      → h.pc ≡ trying l t
      → w l ≡ true
      → Move w h w (drop_token t (record h { pc = running }))
  -- Guard::drop
  drop_guard :
      (i l : ℕ) (t : Bool)
      → h.pc ≡ running
      → get_elem? h.held i ≡ some (guard l t)
      → Move w h (unlock l w) (record h { pc = releasing t; held = remove i h.held })
  drop_rest :
      (t : Bool) → h.pc ≡ releasing t → Move w h w (drop_token t (record h { pc = running }))
  -- Guard::drop_and_keep_token
  keep_token :
      (i l : ℕ) (t : Bool)
      → h.pc ≡ running
      → get_elem? h.held i ≡ some (guard l t)
      → Move w h (unlock l w) (record h { held = set h.held i (token t) })
  -- Guard::forget_and_keep_token
  forget_guard :
      (i l : ℕ) (t : Bool)
      → h.pc ≡ running
      → get_elem? h.held i ≡ some (guard l t)
      → Move w h w (record h { held = set h.held i (token t) })
  -- InterruptToken::drop and InterruptToken::forget
  drop_kept :
      (i : ℕ) (t : Bool)
      → h.pc ≡ running
      → get_elem? h.held i ≡ some (token t)
      → Move w h w (drop_token t (record h { held = remove i h.held }))
  forget_token :
      (i : ℕ) (t : Bool)
      → h.pc ≡ running
      → get_elem? h.held i ≡ some (token t)
      → Move w h w (record h { held = remove i h.held })
  -- enable_intr, called outside the lock's code
  enable : h.pc ≡ running → Move w h w (enable_intr h)

-- The harts of a machine, over one memory.
pub record Harts : Type 0 where
  pub words : Words
  pub harts : ℕ → Hart

unfoldable pub put : ℕ → Hart → (ℕ → Hart) → ℕ → Hart
put i h f j = if i == j then h else f j

-- One hart moves.
pub data Step (s : Harts) : Harts → Type 0 where
  moves :
      (i : ℕ) {w : Words} {h : Hart}
      → Move s.words (s.harts i) w h
      → Step s (record { words = w; harts = put i h s.harts })

-- SpinLocked::new: no lock is locked, and no hart is in the lock's code.
pub record IsFresh (s : Harts) : Type 0 where
  pub unlocked : (l : ℕ) → s.words l ≡ false
  pub outside : (i : ℕ) → (s.harts i).pc ≡ running
  pub empty : (i : ℕ) → (s.harts i).held ≡ []

pub data Reach (s : Harts) : Harts → Type 0 where
  start : Reach s s
  later : {t u : Harts} → Reach s t → Step t u → Reach s u
