-- ===== src/Fs/Fd/Tests.antt =====
-- Runs of the file system on a small image: a directory with the file `a`.
use servos.Prelude.{
  ℕ, ◌≡◌, refl, true, false, none, some, [], ◌∷◌, zero, suc, ◌<◌, ◌≤◌, ◌⊎◌, arith, ◌+◌, ◌*◌, ◌^◌,
  ◌==◌, subst,
}
use servos.Fs.Path.Prefix.{some-eq, none-some}
use servos.Fs.Result.{FsError, eof, ok, err, VNode, ◌>>=◌}
use servos.Fs.Path.{Bytes, components, non_empty, split, bytes_eq, is_absolute}
use servos.Fs.InitRd.{InitRd, INode, open_path, inode_dir}
use servos.Fs.InitRd as Rd
use servos.Fs.InitRd.Open.{open_path-join}
use servos.Fs.InitRd.Safe.{IsWellFormed, HasInode, open_path-answers}
use servos.Fs.InitRd.Read.{IsFile, contents, read-contents}
use servos.Fs.Fd.{new}
use servos.Fs.Fd.Reads.{reads}
use servos.Fs.Fd.Image.{device, reads-device}

-- the root, whose one entry is inode 1
abbrev top : INode
top = record { name = b'/' ∷ []; nlen = 1; typ = 1; size = 1; addr = 0 }

-- a directory, whose one entry is inode 2
abbrev dir : INode
dir = record { name = b'd' ∷ []; nlen = 1; typ = 1; size = 1; addr = 8 }

-- a file of three bytes
abbrev file : INode
file = record { name = b'a' ∷ []; nlen = 1; typ = 0; size = 3; addr = 16 }

abbrev word : ℕ → Bytes → Bytes
word n rest = n ∷ 0 ∷ 0 ∷ 0 ∷ 0 ∷ 0 ∷ 0 ∷ 0 ∷ rest

abbrev image : InitRd
image = record {
  inodes = top ∷ dir ∷ file ∷ [];
  data_bytes = word 1 (word 2 (b'x' ∷ b'y' ∷ b'z' ∷ []));
}

abbrev path : Bytes
path = b'd' ∷ b'/' ∷ b'a' ∷ []

abbrev file_node : VNode
file_node = record { ino = 2; directory = false; readonly = true }

open_finds : open_path image path none ≡ ok file_node
unfolding Rd.open_path Rd.walk components non_empty split Rd.enter_dir Rd.first_ino Rd.scan
    Rd.dir_entry Rd.from_le_bytes Rd.name_eq bytes_eq Rd.vnode
open_finds = refl

file_node-IsFile : IsFile image file_node file
file_node-IsFile = record { at = refl; no_dir = refl; inside = omega arith; fits = omega arith }

entries_fit : (i : ℕ) (n : INode) → HasInode image i n → n.addr + n.size * 8 < 2 ^ 64
entries_fit zero n h = subst (λ m. m.addr + m.size * 8 < 2 ^ 64) (some-eq h) (omega arith)
entries_fit (suc zero) n h = subst (λ m. m.addr + m.size * 8 < 2 ^ 64) (some-eq h) (omega arith)
entries_fit (suc (suc zero)) n h =
    subst (λ m. m.addr + m.size * 8 < 2 ^ 64) (some-eq h) (omega arith)
entries_fit (suc (suc (suc i))) n h = absurd (none-some h)

image-IsWellFormed : IsWellFormed image
image-IsWellFormed = record { top = top; has_top = refl; entries_fit = entries_fit }

open_path-answers_example :
    ((e : FsError) × (open_path image path none ≡ err e))
    ⊎ ((vn : VNode) × (n : INode) × (open_path image path none ≡ ok vn)
        × HasInode image vn.ino n
        × (vn.directory ≡ (n.typ == inode_dir))
        × (vn.readonly ≡ true))
unfolding Rd.first_ino
open_path-answers_example = open_path-answers image image-IsWellFormed path none top refl

open_path-join_example :
    open_path image path none
    ≡ (open_path image (b'd' ∷ []) none >>= λ vn. open_path image (b'a' ∷ []) (some vn))
unfolding is_absolute
open_path-join_example = open_path-join image b'd' [] (b'a' ∷ []) none refl

read-contents_example :
    ((3 ≤ 1) × (Rd.read image file_node 1 8 ≡ err eof))
    ⊎ ((1 < 3) × (Rd.read image file_node 1 8 ≡ ok (b'y' ∷ b'z' ∷ [])))
unfolding contents
read-contents_example = read-contents image file_node file file_node-IsFile 1 8

reads-device_example :
    reads (2 ∷ 2 ∷ []) (new file_node (device image)) ≡ ok (b'x' ∷ b'y' ∷ b'z' ∷ [])
unfolding contents
reads-device_example = reads-device image file_node file (2 ∷ 2 ∷ []) file_node-IsFile refl
