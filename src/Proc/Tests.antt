-- ===== src/Proc/Tests.antt =====
-- A process whose page table has three levels and one page of its own.
use servos.Prelude.{
  true, ℕ, ◌≡◌, refl, subst, none, some, List, [], ◌∷◌, ◌++◌, ◌==◌, if◌then◌else◌, arith, ◌↔◌,
  bit_or,
}
use servos.Vmm.Pte.{PteLink, leaf, page_table, next, new_entry, is_owned}
use servos.Vmm.Pte.Flag
use servos.Vmm.Memory.{Memory, write_entry, free_page}
use servos.Vmm.Paging.Owner.{Owners, Owns, table, data_page, Fits-Owns, Owns-write}
use servos.Vmm.Paging.Alloc.{Fits-empty}
use servos.Vmm.Paging.Drop.{drop_box, drop_table, drop_from, drop_entry}
use servos.Vmm.Paging.Drop.Once.{Once}
use servos.Vmm.Paging.Drop.Frees.{In, Part}
use servos.Prelude.Outcome.{done}
use servos.Fs.Result as Fs
use servos.Fs.Fd.{FileSystem}
use servos.Proc.{Process, running, Kernel, destroy}
use servos.Proc.GiveBack.{destroy-gives_back}

abbrev own : Owners
own a =
    if a == 0x1000
    then some (table 2 0)
    else if a == 0x2000
    then some (table 1 0)
    else if a == 0x3000
    then some (table 0 0)
    else if a == 0x4000
    then some (data_page 0x3000 0)
    else none

abbrev blank : Memory
blank = record { tables = λ t i. 0; bytes = λ p. 0; free = 0x5000 ∷ [] }

abbrev page_entry : ℕ
page_entry = new_entry 0x4000 (bit_or Flag.urw Flag.owned)

abbrev mapped : Memory
mapped =
    write_entry 0x1000 0 (new_entry 0x2000 0)
      (write_entry 0x2000 0 (new_entry 0x3000 0) (write_entry 0x3000 0 page_entry blank))

blank-Owns : Owns 0x1000 own blank
blank-Owns =
    Fits-Owns blank refl (λ a l p i h s. Fits-empty own l p a i 0 refl)
      (refl, (refl, omega arith), tt, tt)

link_to : ℕ → ℕ → PteLink
link_to a perms = next (new_entry a perms)

first_link : link_to 0x2000 0 ≡ page_table 0x2000
unfolding link_to next new_entry
first_link = refl

second_link : link_to 0x3000 0 ≡ page_table 0x3000
unfolding link_to next new_entry
second_link = refl

page_link : next page_entry ≡ leaf 0x4000
unfolding next new_entry
page_link = refl

page_at : (b : ℕ) → next page_entry ≡ leaf b → 0x4000 ≡ b
page_at b h = cc page_link

linked_to : (a b : ℕ) {l : PteLink} → l ≡ page_table a → l ≡ page_table b → a ≡ b
linked_to a b h g = cc

mapped-Owns : Owns 0x1000 own mapped
unfolding link_to
mapped-Owns =
    Owns-write 0x1000 2 0 0 (new_entry 0x2000 0)
      (Owns-write 0x2000 1 0 0 (new_entry 0x3000 0)
        (Owns-write 0x3000 0 0 0 page_entry blank-Owns refl (
          λ b h. cc page_link,
          λ b h o. subst (λ c. own c ≡ some (data_page 0x3000 0)) (page_at b h) refl,
        ))
        refl
        (
          λ b h. subst (λ c. own c ≡ some (table 0 0)) (linked_to 0x3000 b second_link h) refl,
          λ b h. cc second_link,
        ))
      refl
      (
        λ b h. subst (λ c. own c ≡ some (table 1 0)) (linked_to 0x2000 b first_link h) refl,
        λ b h. cc first_link,
      )

drops :
    drop_box 3 0x1000 mapped
    ≡ some (record mapped { free = 0x1000 ∷ 0x2000 ∷ 0x3000 ∷ 0x4000 ∷ 0x5000 ∷ [] })
unfolding drop_box drop_table drop_from drop_entry write_entry next new_entry is_owned free_page
drops = refl

abbrev no_fs : FileSystem
no_fs = record {
  read = λ vn pos n. Fs.err Fs.eof;
  write = λ vn pos b. Fs.err Fs.eof;
  readdir = λ vn pos. Fs.err Fs.eof;
  stat = λ vn. Fs.err Fs.eof;
}

abbrev process : Process
process = record {
  pid = 4;
  status = running;
  files = [];
  cwd = record {
    node = record { ino = 0; directory = true; readonly = true };
    dev = no_fs;
    pos = 0;
  };
  brk = 0;
  killed = none;
  pagetable = 0x1000;
  trapframe = record { regs = λ r. 0; hartid = 0 };
}

abbrev kernel : Kernel
kernel = record {
  procs = λ n. process;
  live = λ n. n == 1;
  proc_list = 1 ∷ [];
  awaiting = [];
  memory = mapped;
  reserves = [];
  next_pid = 5;
}

destroy-gives_back_example :
    (k' : Kernel) × (freed : List ℕ) × (destroy 1 7 kernel ≡ done k')
    × (k'.memory ≡ record mapped { free = freed ++ mapped.free })
    × ((x : ℕ) → In x freed ↔ Part mapped 0x1000 x)
    × Once (freed ++ mapped.free)
destroy-gives_back_example = destroy-gives_back 1 7 own kernel (omega arith) mapped-Owns
