-- ===== src/Sys/Load/Program.antt =====
-- The part of Process::spawn of kernel/src/proc.rs that fills the memory of a new process: the
-- segments of the program, the strings of its arguments and the pointers to them.
pub mod Stack
pub mod Refused
use servos.Prelude.{
  ℕ, zero, suc, ◌+◌, ◌-◌, ◌*◌, ◌/◌, ◌^◌, bit_and, bit_or, max, Bool, true, false, not, none, some,
  List, [], ◌∷◌, length, take, drop, ltb, leb, ◌==◌, if◌then◌else◌,
}
use servos.Prelude.Outcome.{Outcome, done, panic}
use servos.Vmm.Memory.{Memory}
use servos.Vmm.Vaddr.{page_size, max_va}
use servos.Vmm.Pte.Flag
use servos.Vmm.Paging.{map_new_pages}
use servos.Vmm.Copy.{copy_to, iter_phys, zero_all}
use servos.Fs.Path.{Bytes}
use servos.Fs.InitRd.Load.Le.{to_le_bytes}
use servos.Elf.{Phdr}
use servos.Sys.Code.{SysError, SysResult, ok, err, panic, stops, no_memory, bad_addr, bad_arg}
use servos.Sys.User.{◌>>=◌}

-- `if !… { return Err(e) }` on a call that maps or copies
abbrev pub checked : SysError → Outcome (Bool × Memory) → Memory → SysResult (Unit {0}) × Memory
checked e (done (true, m')) m = (ok tt, m')
checked e (done (false, m')) m = (err e, m')
checked e panic m = (panic, m)

-- USER_TRAP_VEC, USER_TRAP_FRAME and USER_STACK_SZ
abbrev pub user_trap_vec : ℕ
user_trap_vec = max_va - page_size

abbrev pub user_trap_frame : ℕ
user_trap_frame = user_trap_vec - page_size

abbrev pub user_stack_sz : ℕ
user_stack_sz = 1024 * 1024

-- the first `sp`
abbrev pub stack_top : ℕ
stack_top = user_trap_frame - page_size

-- PT_LOAD, PF_X and PF_W
abbrev pub pt_load : ℕ
pt_load = 1

abbrev pub pf_w : ℕ
pf_w = 2

abbrev pub pf_x : ℕ
pf_x = 4

unfoldable pub segment_perms : ℕ → ℕ
segment_perms flags =
    let perms = bit_or Flag.u Flag.r in
    let perms' = (if bit_and flags pf_w == 0 then perms else bit_or perms Flag.w) in
    if bit_and flags pf_x == 0 then perms' else bit_or perms' Flag.x

-- `&file.raw[offset..][..filesz]`
unfoldable pub file_slice : Bytes → ℕ → ℕ → Memory → SysResult Bytes × Memory
file_slice raw offset filesz m =
    if ltb (length raw) offset
    then (panic, m)
    else if ltb (length raw - offset) filesz
    then (panic, m)
    else (ok (take filesz (drop offset raw)), m)

-- `(base + filesz).iter_phys(…).zero()`; the addition may overflow
unfoldable pub zero_rest : ℕ → ℕ → ℕ → ℕ → Memory → SysResult (Unit {0}) × Memory
zero_rest pt va size perms m =
    if ltb va (2 ^ 64)
    then elim (zero_all pt (iter_phys va size perms) m) [
      | panic ↦ (panic, m)
      | done m' ↦ (ok tt, m')
    ]
    else (panic, m)

-- `highest_va.max(base + phdr.memsz as usize)`
unfoldable pub highest : ℕ → ℕ → Memory → SysResult ℕ × Memory
highest va end m = if ltb end (2 ^ 64) then (ok (max va end), m) else (panic, m)

-- the body of the loop over the program headers, for a header of the type PT_LOAD
unfoldable pub load_segment : ℕ → Bytes → Phdr → ℕ → Memory → SysResult ℕ × Memory
load_segment pt raw ph highest_va m =
    let perms = segment_perms ph.flags in
    if ltb ph.memsz ph.filesz
    then (err bad_arg, m)
    else (checked no_memory (map_new_pages pt ph.vaddr ph.memsz perms false m) m >>= λ u m1.
        file_slice raw ph.offset ph.filesz m1 >>= λ bytes m2.
        checked bad_addr (copy_to pt ph.vaddr bytes (some 0) m2) m2 >>= λ v m3.
        zero_rest pt (ph.vaddr + ph.filesz) (ph.memsz - ph.filesz) perms m3 >>= λ w m4.
        highest highest_va (ph.vaddr + ph.memsz) m4)

-- the loop
unfoldable pub load_segments : ℕ → Bytes → List Phdr → ℕ → Memory → SysResult ℕ × Memory
load_segments pt raw [] highest_va m = (ok highest_va, m)
load_segments pt raw (ph ∷ phs) highest_va m =
    let skipped = load_segments pt raw phs highest_va m in
    let loaded =
      (load_segment pt raw ph highest_va m >>= λ va m'. load_segments pt raw phs va m') in
    if ph.typ == pt_load then loaded else skipped

-- `pt.map_new_pages(sp - USER_STACK_SZ, USER_STACK_SZ, Pte::Urw, true)`
unfoldable pub map_stack : ℕ → Memory → SysResult (Unit {0}) × Memory
map_stack pt m =
    checked no_memory (map_new_pages pt (stack_top - user_stack_sz) user_stack_sz Flag.urw true m) m

-- the loop over the path and the arguments: the pointers, and the stack pointer behind it
unfoldable pub push_args : ℕ → List Bytes → ℕ → Memory → SysResult (List ℕ × ℕ) × Memory
push_args pt [] sp m = (ok ([], sp), m)
push_args pt (arg ∷ args) sp m =
    let rest =
      (checked bad_addr (copy_to pt (sp - (length arg + 1)) arg none m) m >>= λ u m1.
      push_args pt args (sp - (length arg + 1)) m1 >>= λ r m2.
      (ok ((sp - (length arg + 1)) ∷ r.0, r.1), m2)) in
    if ltb sp (length arg + 1) then (panic, m) else rest

-- the loop over the pointers, the last first
unfoldable pub push_ptrs : ℕ → List ℕ → ℕ → Memory → SysResult ℕ × Memory
push_ptrs pt [] sp m = (ok sp, m)
push_ptrs pt (ptr ∷ ptrs) sp m =
    let rest =
      (checked bad_addr (copy_to pt (sp - 8) (to_le_bytes 8 ptr) none m) m >>= λ u m1.
      push_ptrs pt ptrs (sp - 8) m1) in
    if ltb sp 8 then (panic, m) else rest
