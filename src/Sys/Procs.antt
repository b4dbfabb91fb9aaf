-- ===== src/Sys/Procs.antt =====
-- The system calls on processes, of kernel/src/sys.rs.
use servos.Prelude.{
  ℕ, ◌+◌, ◌-◌, ◌%◌, ◌^◌, Bool, true, false, not, ◌&&◌, ◌||◌, Option, none, some, List, [], ◌∷◌, ltb,
  ◌==◌, if◌then◌else◌,
}
use servos.Prelude.Outcome.{Outcome, done, panic}
use servos.Vmm.Vaddr.{page, next_page}
use servos.Vmm.Memory.{Memory}
use servos.Vmm.Pte.Flag
use servos.Vmm.Paging.{map_new_pages, unmap_pages}
use servos.Proc.{Kernel, Process, waiting, put_proc, kill}
use servos.Sys.Code.{bad_arg, not_found, no_memory, SysResult, ok, err, panic, stops}

-- sys_shutdown
unfoldable pub sys_shutdown : ℕ → Kernel → SysResult ℕ × Kernel
sys_shutdown typ k =
    if typ == 0 then (stops 0, k) else if typ == 1 then (stops 1, k) else (err bad_arg, k)

-- the first process of the list with this number
unfoldable pub find_pid : ℕ → List ℕ → (ℕ → Process) → Option ℕ
find_pid pid [] procs = none
find_pid pid (n ∷ list) procs =
    let rest = find_pid pid list procs in if (procs n).pid == pid then some n else rest

-- sys_kill
unfoldable pub sys_kill : ℕ → Kernel → SysResult ℕ × Kernel
sys_kill pid k = if pid == 0 then (err bad_arg, k) else elim (find_pid pid k.proc_list k.procs) [
  | none ↦ (err not_found, k)
  | some n ↦ (ok 0, put_proc n (kill none (k.procs n)) k)
]

-- sys_getpid
unfoldable pub sys_getpid : ℕ → Kernel → SysResult ℕ × Kernel
sys_getpid n k = (ok (k.procs n).pid, k)

-- sys_waitpid
unfoldable pub sys_waitpid : ℕ → ℕ → Kernel → SysResult ℕ × Kernel
sys_waitpid n pid k =
    if (k.procs n).pid == pid then (err bad_arg, k) else elim (find_pid pid k.proc_list k.procs) [
      | none ↦ (ok 0, k)
      | some m ↦ (ok 0, put_proc n (record (k.procs n) { status = waiting (pid % 2 ^ 32) }) k)
    ]

-- `inc < 0` of an `isize`
abbrev pub is_negative : ℕ → Bool
is_negative inc = not (ltb inc (2 ^ 63))

-- `checked_add_signed`, with the bits of the `isize`
unfoldable pub checked_add_signed : ℕ → ℕ → Option ℕ
checked_add_signed a inc =
    if is_negative inc
    then (if ltb a (2 ^ 64 - inc) then none else some (a - (2 ^ 64 - inc)))
    else if ltb (a + inc) (2 ^ 64)
    then some (a + inc)
    else none

-- `self + Page::SIZE` of `next_page` overflows like any addition
abbrev pub next_page_fits : ℕ → Bool
next_page_fits va = ltb (va + 0x1000) (2 ^ 64)

-- what sys_sbrk does to the page table; the difference of the addresses can overflow too
unfoldable pub move_pages : ℕ → ℕ → ℕ → ℕ → Memory → Outcome (Bool × Memory)
move_pages pt inc cur new m =
    if page new == page cur || (inc == 1 && not (page new == page cur))
    then done (true, m)
    else if is_negative inc
    then (if next_page_fits new
        then (elim (unmap_pages pt (next_page new) cur m) [
          | panic ↦ panic
          | done m' ↦ done (true, m')
        ])
        else panic)
    else if next_page_fits cur && not (ltb new (next_page cur))
    then map_new_pages pt (next_page cur) (new - next_page cur) Flag.urw true m
    else panic

-- sys_sbrk
unfoldable pub sys_sbrk : ℕ → ℕ → Kernel → SysResult ℕ × Kernel
sys_sbrk n inc k =
    let p = k.procs n in
    elim (checked_add_signed p.brk inc) [
      | none ↦ (err bad_arg, k)
      | some new ↦ elim (move_pages p.pagetable inc p.brk new k.memory) [
        | panic ↦ (panic, k)
        | done (false, m) ↦ (err no_memory, record k { memory = m })
        | done (true, m) ↦ (ok new, put_proc n (record p { brk = new }) (record k { memory = m }))
      ]
    ]

-- sys_exit
unfoldable pub sys_exit : ℕ → ℕ → Kernel → SysResult ℕ × Kernel
sys_exit n ecode k = (ok 0, put_proc n (kill (some ecode) (k.procs n)) k)
