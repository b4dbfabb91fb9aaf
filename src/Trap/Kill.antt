-- ===== src/Trap/Kill.antt =====
-- The end of a process that another one has killed.
use servos.Prelude.{
  ℕ, ◌+◌, ◌-◌, ◌^◌, ◌≡◌, ◌≢◌, inl, inr, refl, ap, sym, ◌∙◌, subst, Bool, true, false, Option, none,
  some, List, [], ◌∷◌, ◌==◌, if◌then◌else◌, Bool-cases, ==→eq, ==_self, ne→==,
}
use servos.Prelude.Outcome.{Outcome, done, panic}
use servos.Fs.Path.Prefix.{some-eq, none-some}
use servos.Proc.{Kernel, Process, yields, put_proc, with_reg, kill, free}
use servos.Proc.Reg
use servos.Proc.Count.{one}
use servos.Proc.Wake.{put_self}
use servos.Sys.Code.{SysResult, ok, err, not_found, bad_arg}
use servos.Sys.User.{Platform}
use servos.Sys.Procs.{find_pid, sys_kill}
use servos.Sys.Queues.{queues}
use servos.Trap as Traps
use servos.Trap.{
  Cause, external_intr, timer_intr, ecall, page_fault, other_cause, unknown_cause, Trapped, goes_on,
  panics, CauseResult, left, trap_panics, trap_stops, handle_cause, handle_u_trap, finish_trap,
  end_process,
}
use servos.Trap.Sound.{Fits}
use servos.Trap.Owned.{listed, destroy-found}
use servos.Trap.Exit.{finish_trap-killed}

-- the process that is found has the number
find_pid-pid :
    (pid n : ℕ) (list : List ℕ) (procs : ℕ → Process)
    → find_pid pid list procs ≡ some n
    → (procs n).pid ≡ pid
unfolding find_pid
find_pid-pid pid n [] procs h = absurd (none-some h)
find_pid-pid pid n (m ∷ list) procs h = elim (Bool-cases ((procs m).pid == pid)) [
  | inl e ↦
      let same = some-eq (sym (ap (λ b. if b then some m else find_pid pid list procs) e) ∙ h) in
      ap (λ x. (procs x).pid) (sym same) ∙ ==→eq (procs m).pid pid e
  | inr e ↦
      find_pid-pid pid n list procs
        (sym (ap (λ b. if b then some m else find_pid pid list procs) e) ∙ h)
]

sys_kill-found :
    (pid n : ℕ) (k : Kernel)
    → pid ≢ 0
    → find_pid pid k.proc_list k.procs ≡ some n
    → sys_kill pid k ≡ (ok 0, put_proc n (kill none (k.procs n)) k)
unfolding sys_kill
sys_kill-found pid n k ne e =
    ap (λ b. if b then (err bad_arg, k) else found (find_pid pid k.proc_list k.procs))
      (ne→== pid 0 ne)
    ∙ ap found e
  where
    found : Option ℕ → SysResult ℕ × Kernel
    found o = elim o [
      | none ↦ (err not_found, k)
      | some m ↦ (ok 0, put_proc m (kill none (k.procs m)) k)
    ]

-- what a trap that is no system call leaves of a process that is marked as killed
handle_cause-killed :
    (sys : Platform) (n sepc e : ℕ) (c : Cause) (k : Kernel)
    → c ≢ ecall
    → c ≢ unknown_cause
    → (k.procs n).killed ≡ some e
    → (e' : ℕ) × (b : Bool) × (k' : Kernel) × (handle_cause sys n c sepc k ≡ left k' sepc b)
      × ((k'.procs n).killed ≡ some e')
      × ((k'.procs n).pid ≡ (k.procs n).pid)
      × (queues k' ≡ queues k)
unfolding handle_cause kill
handle_cause-killed sys n sepc e external_intr k a b h = (e, false, k, refl, h, refl, refl)
handle_cause-killed sys n sepc e timer_intr k a b h = (e, true, k, refl, h, refl, refl)
handle_cause-killed sys n sepc e ecall k a b h = absurd (a refl)
handle_cause-killed sys n sepc e page_fault k a b h =
    let same = put_self n (kill none (k.procs n)) k.procs in
    (
      2 ^ 64 - 1,
      false,
      put_proc n (kill none (k.procs n)) k,
      refl,
      ap (λ (p : Process). p.killed) same,
      ap (λ (p : Process). p.pid) same,
      refl,
    )
handle_cause-killed sys n sepc e other_cause k a b h =
    let same = put_self n (kill none (k.procs n)) k.procs in
    (
      2 ^ 64 - 1,
      false,
      put_proc n (kill none (k.procs n)) k,
      refl,
      ap (λ (p : Process). p.killed) same,
      ap (λ (p : Process). p.pid) same,
      refl,
    )
handle_cause-killed sys n sepc e unknown_cause k a b h = absurd (b refl)

-- A killed process ends in the last part of its trap: it is freed and its hart looks for another.
finish_trap-ends :
    (hart n sepc e : ℕ) (b : Bool) (r : ℕ → ℕ) (k : Kernel)
    → (k.procs n).killed ≡ some e
    → (k.procs n).pid ≢ 0
    → Fits (λ x. r x + one x n) (queues k)
    → (k' : Kernel) × (finish_trap hart n sepc b k ≡ goes_on yields k') × (k'.live n ≡ false)
unfolding end_process free
finish_trap-ends hart n sepc e b r k h ne f =
    let km : Kernel = put_proc n (with_reg Reg.pc sepc (k.procs n)) k in
    let pid_same : (km.procs n).pid ≡ (k.procs n).pid =
      ap (λ (p : Process). p.pid) (put_self n (with_reg Reg.pc sepc (k.procs n)) k.procs) in
    let (i, p) = listed r n k.proc_list k.awaiting k.live f in
    let found = destroy-found n e i km (ap (λ x. x == 0) pid_same ∙ ne→== (k.procs n).pid 0 ne) p in
    (
      _,
      finish_trap-killed hart n sepc e b k h ∙ ap ended found,
      ap (λ x. if x then false else k.live n) (==_self n),
    )
  where
    ended : Outcome Kernel → Trapped
    ended x = elim x [ panic ↦ panics | done k' ↦ goes_on yields k' ]

-- A killed process that is run ends at its next trap that is no system call.
killed-ends :
    (sys : Platform) (hart n sepc e : ℕ) (c : Cause) (r : ℕ → ℕ) (k : Kernel)
    → c ≢ ecall
    → c ≢ unknown_cause
    → (k.procs n).killed ≡ some e
    → (k.procs n).pid ≢ 0
    → Fits (λ x. r x + one x n) (queues k)
    → (k' : Kernel) × (handle_u_trap sys hart n c sepc k ≡ goes_on yields k') × (k'.live n ≡ false)
unfolding handle_u_trap
killed-ends sys hart n sepc e c r k a b h ne f =
    let (e', y, k1, q, h1, pid_same, owners) = handle_cause-killed sys n sepc e c k a b h in
    let (k', ends, freed) =
      finish_trap-ends hart n sepc e' y r k1 h1 (λ z. ne (sym pid_same ∙ z))
        (subst (Fits (λ x. r x + one x n)) (sym owners) f) in
    (k', ap rest_of q ∙ ends, freed)
  where
    rest_of : CauseResult → Trapped
    rest_of x = elim x [
      | left k' pc must_yield ↦ finish_trap hart n pc must_yield k'
      | trap_panics ↦ panics
      | trap_stops ↦ Traps.stops
    ]

-- A call of `kill` with a number that is not 0 and that a process of the list has succeeds, whatever
-- that process does at the time, running, queued or waiting. In any later kernel whose processes have
-- their owners, when a hart runs the process, which still has its number and the mark that the call
-- has set, its next trap ends it if that is neither a system call nor of an unknown cause: its
-- address is freed, and its hart looks for another process.
pub sys_kill-ends :
    (sys : Platform) (hart n pid sepc : ℕ) (c : Cause) (r : ℕ → ℕ) (k later : Kernel)
    → pid ≢ 0
    → find_pid pid k.proc_list k.procs ≡ some n
    → (later.procs n).killed ≡ ((sys_kill pid k).1.procs n).killed
    → (later.procs n).pid ≡ (k.procs n).pid
    → Fits (λ x. r x + one x n) (queues later)
    → c ≢ ecall
    → c ≢ unknown_cause
    → (k' : Kernel) × ((sys_kill pid k).0 ≡ ok 0)
      × (handle_u_trap sys hart n c sepc later ≡ goes_on yields k')
      × (k'.live n ≡ false)
unfolding kill
sys_kill-ends sys hart n pid sepc c r k later ne e mark number f a b =
    let called = sys_kill-found pid n k ne e in
    let killed : (later.procs n).killed ≡ some (2 ^ 64 - 1) =
      mark
      ∙ (ap (λ (x : SysResult ℕ × Kernel). (x.1.procs n).killed) called
          ∙ ap (λ (p : Process). p.killed) (put_self n (kill none (k.procs n)) k.procs)) in
    let pid_of : (later.procs n).pid ≡ pid = number ∙ find_pid-pid pid n k.proc_list k.procs e in
    let (k', ends, freed) =
      killed-ends sys hart n sepc (2 ^ 64 - 1) c r later a b killed (λ z. ne (sym pid_of ∙ z)) f in
    (k', ap (λ x. x.0) called, ends, freed)
