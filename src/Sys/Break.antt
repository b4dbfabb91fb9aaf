-- ===== src/Sys/Break.antt =====
-- sys_sbrk: which moves of the break work, and which do not.
use servos.Prelude.{
  ℕ, ◌+◌, ◌-◌, ◌*◌, ◌/◌, ◌%◌, ◌^◌, ◌<◌, ◌≤◌, ◌≡◌, ◌≢◌, ap, ◌∙◌, Bool, true, false, none, some, ltb,
  if◌then◌else◌, arith,
}
use servos.Prelude.Outcome.{Outcome, done, panic}
use servos.Vmm.Vaddr.{page, next_page}
use servos.Vmm.Vaddr.Fields.{page_number-div}
use servos.Vmm.Memory.{Memory}
use servos.Vmm.Pte.Flag
use servos.Vmm.Paging.{map_new_pages}
use servos.Vmm.Translate.{to_phys}
use servos.Proc.{Kernel, Process, put_proc}
use servos.Proc.Wake.{put_self}
use servos.Sys.Code.{SysResult, ok, err, panic, bad_arg, no_memory}
use servos.Sys.Procs.{sys_sbrk, move_pages, checked_add_signed}

-- the `isize` of the bits of an argument, added to an address
add-checked_add_signed :
    (a d : ℕ) → a + d < 2 ^ 64 → d < 2 ^ 63 → checked_add_signed a d ≡ some (a + d)
unfolding checked_add_signed
add-checked_add_signed a d h g = ground arith

sub-checked_add_signed :
    (a d : ℕ)
    → a < 2 ^ 64
    → d ≤ 2 ^ 63
    → 0 < d
    → checked_add_signed a (2 ^ 64 - d) ≡ (if ltb a d then none else some (a - d))
unfolding checked_add_signed
sub-checked_add_signed a d h g l = ground arith

page-mod : (a : ℕ) → a < 2 ^ 64 → page a ≡ a / 4096 * 4096
unfolding page
page-mod a h = page_number-div a h

next_page-mod : (a : ℕ) → a + 4096 < 2 ^ 64 → next_page a ≡ (a + 4096) / 4096 * 4096
unfolding next_page
next_page-mod a h = page_number-div (a + 4096) h

-- Mapping no bytes at all fails an assertion.
map_new_pages-zero :
    (pt va perms : ℕ) (b : Bool) (m : Memory) → map_new_pages pt va 0 perms b m ≡ panic
unfolding map_new_pages
map_new_pages-zero pt va perms b m = ground arith

move_pages-next_page :
    (pt inc cur new : ℕ) (m : Memory)
    → 1 < inc
    → inc < 2 ^ 63
    → cur + 4096 < 2 ^ 64
    → new ≡ next_page cur
    → page new ≢ page cur
    → move_pages pt inc cur new m ≡ panic
unfolding move_pages
move_pages-next_page pt inc cur new m one small fits e ne =
    let z : new - next_page cur ≡ 0 = omega arith in
    let p = map_new_pages-zero pt (next_page cur) Flag.urw true m in
    let q : map_new_pages pt (next_page cur) (new - next_page cur) Flag.urw true m ≡ panic =
      ap (λ d. map_new_pages pt (next_page cur) d Flag.urw true m) z ∙ p in
    ground arith

move_pages-same_page :
    (pt inc cur new : ℕ) (m : Memory)
    → page new ≡ page cur
    → move_pages pt inc cur new m ≡ done (true, m)
unfolding move_pages
move_pages-same_page pt inc cur new m e = ground arith

-- the part of sys_sbrk behind the sum
moved_to : ℕ → Kernel → ℕ → Outcome (Bool × Memory) → SysResult ℕ × Kernel
moved_to n k new r = elim r [
  | panic ↦ (panic, k)
  | done (false, m) ↦ (err no_memory, record k { memory = m })
  | done (true, m) ↦
      (ok new, put_proc n (record (k.procs n) { brk = new }) (record k { memory = m }))
]

sys_sbrk-moved :
    (n inc new : ℕ) (k : Kernel) (r : Outcome (Bool × Memory))
    → checked_add_signed (k.procs n).brk inc ≡ some new
    → move_pages (k.procs n).pagetable inc (k.procs n).brk new k.memory ≡ r
    → sys_sbrk n inc k ≡ moved_to n k new r
unfolding sys_sbrk moved_to
sys_sbrk-moved n inc new k r e q =
    ap
      (λ o. elim o as (λ x. SysResult ℕ × Kernel) [
        | none ↦ (err bad_arg, k)
        | some to ↦
            moved_to n k to (move_pages (k.procs n).pagetable inc (k.procs n).brk to k.memory)
      ])
      e
    ∙ ap (moved_to n k new) q

-- A program that moves its break up by more than one byte to the start of the next page makes the
-- kernel panic.
pub sys_sbrk-next_page :
    (n inc : ℕ) (k : Kernel)
    → 1 < inc
    → inc < 2 ^ 63
    → (k.procs n).brk + 4096 < 2 ^ 64
    → (k.procs n).brk + inc ≡ next_page (k.procs n).brk
    → sys_sbrk n inc k ≡ (panic, k)
unfolding moved_to
sys_sbrk-next_page n inc k one small fits e =
    let cur = (k.procs n).brk in
    let next = next_page-mod cur fits in
    let before = page-mod cur (omega arith) in
    let after = page-mod (cur + inc) (omega arith) in
    sys_sbrk-moved n inc (cur + inc) k panic (add-checked_add_signed cur inc (omega arith) small) (
      move_pages-next_page (k.procs n).pagetable inc cur (cur + inc) k.memory one small fits e
        (λ same. omega arith))

-- A move of the break inside its page, up or down, maps and unmaps nothing.
sys_sbrk-same_page :
    (n inc new : ℕ) (k : Kernel)
    → checked_add_signed (k.procs n).brk inc ≡ some new
    → page new ≡ page (k.procs n).brk
    → sys_sbrk n inc k ≡ (ok new, put_proc n (record (k.procs n) { brk = new }) k)
unfolding moved_to
sys_sbrk-same_page n inc new k e p =
    sys_sbrk-moved n inc new k (done (true, k.memory)) e
      (move_pages-same_page (k.procs n).pagetable inc (k.procs n).brk new k.memory p)

-- A program whose break is at the start of a page that it has no memory for, and that moves the break
-- up by less than a page, gets the new break as a success, and its page table still has no memory at
-- the address at which the new bytes begin.
pub sys_sbrk-boundary :
    (n inc perms : ℕ) (k : Kernel)
    → (k.procs n).brk % 4096 ≡ 0
    → inc < 4096
    → (k.procs n).brk + inc < 2 ^ 64
    → to_phys (k.procs n).pagetable (k.procs n).brk perms k.memory ≡ none
    → (k' : Kernel) × (sys_sbrk n inc k ≡ (ok ((k.procs n).brk + inc), k'))
      × ((k'.procs n).brk ≡ (k.procs n).brk + inc)
      × (to_phys (k'.procs n).pagetable (k.procs n).brk perms k'.memory ≡ none)
sys_sbrk-boundary n inc perms k start small fits bare =
    let cur = (k.procs n).brk in
    let p : Process = record (k.procs n) { brk = cur + inc } in
    let same = put_self n p k.procs in
    (
      put_proc n p k,
      sys_sbrk-same_page n inc (cur + inc) k (add-checked_add_signed cur inc fits (omega arith))
          (omega (arith, page-mod cur (omega arith), page-mod (cur + inc) fits)),
      ap (λ (q : Process). q.brk) same,
      ap (λ (q : Process). to_phys q.pagetable cur perms k.memory) same ∙ bare,
    )
