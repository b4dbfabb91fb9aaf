-- ===== src/User/Tests.antt =====
-- cat on a small image, and the shell on a line.
use servos.Prelude.{◌+◌, ◌≡◌, refl, true, false, some, [], ◌∷◌, arith}
use servos.Prelude.Outcome.{panic}
use servos.Fs.Result.{VNode}
use servos.Fs.InitRd.{INode, InitRd}
use servos.Fs.InitRd.Read.{IsFile, contents}
use servos.Fs.Fd.{new}
use servos.Fs.Fd.Image.{device}
use servos.Vmm.Memory.{Memory}
use servos.Vmm.Vaddr.{page_number, page_offset, offset}
use servos.Vmm.Pte.{next, perms, contains}
use servos.Vmm.Translate.{to_phys, to_phys_walk}
use servos.Fs.Fd.Pages.{writable}
use servos.User.Cat.{copy_all}
use servos.User.Cat.Device.{World, calls, copy_all-page}
use servos.User.Shell.{run_lines, cd_name}
use servos.User.Shell.Words.{line, run_lines-cd}

abbrev note : INode
note = record { name = b'a' ∷ []; nlen = 1; typ = 0; size = 2; addr = 1 }

abbrev image : InitRd
image = record { inodes = note ∷ []; data_bytes = 0 ∷ b'h' ∷ b'i' ∷ 0 ∷ [] }

abbrev node : VNode
node = record { ino = 0; directory = false; readonly = true }

node-IsFile : IsFile image node note
node-IsFile = record { at = refl; no_dir = refl; inside = omega arith; fits = omega arith }

-- all of user memory in one large page, readable and writable
abbrev memory : Memory
memory = record { tables = λ a b. 0x20000017; bytes = λ a. 0; free = [] }

abbrev opened : World
opened = record { file = new node (device image); memory = memory; screen = [] }

writes : to_phys 0 0x2000 writable memory ≡ some 0x80002000
unfolding to_phys to_phys_walk next contains perms offset
writes = refl

loads : to_phys 0 0x2000 18 memory ≡ some 0x80002000
unfolding to_phys to_phys_walk next contains perms offset
loads = refl

behind : to_phys 0 (page_number (0x2000 + 4096)) writable memory ≡ some 0x80003000
unfolding to_phys to_phys_walk next page_number contains perms offset
behind = refl

copy_all-page_example :
    (w' : World) × (copy_all (calls 0 0x2000) 2 2 opened ≡ some w') × (w'.screen ≡ b'h' ∷ b'i' ∷ [])
unfolding contents page_offset
copy_all-page_example =
    copy_all-page image node note node-IsFile refl 0 0x2000 0x80002000 memory [] (omega arith)
      writes 2 0 0x80003000 (omega arith) loads behind

-- a buffer whose first page has room for two bytes
at_edge : to_phys 0 0x2ffe writable memory ≡ some 0x80002ffe
unfolding to_phys to_phys_walk next contains perms offset
at_edge = refl

behind_edge : to_phys 0 (page_number (0x2ffe + 4096)) writable memory ≡ some 0x80003000
unfolding to_phys to_phys_walk next page_number contains perms offset
behind_edge = refl

edge_loads : to_phys 0 0x2ffe 18 memory ≡ some 0x80002ffe
unfolding to_phys to_phys_walk next contains perms offset
edge_loads = refl

prints_nothing : (w' : World) × (copy_all (calls 0 0x2ffe) 2 2 opened ≡ some w') × (w'.screen ≡ [])
unfolding contents page_offset
prints_nothing =
    copy_all-page image node note node-IsFile refl 0 0x2ffe 0x80002ffe memory [] (omega arith)
      at_edge 2 0 0x80003000 (omega arith) edge_loads behind_edge

run_lines-cd_example : run_lines (calls 0 0x2000) (line 1 ((cd_name, 2) ∷ []) ∷ []) 0 opened ≡ panic
run_lines-cd_example = run_lines-cd (calls 0 0x2000) 1 2 0 [] opened
