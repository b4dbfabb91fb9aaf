-- ===== src/Fs/InitRd.antt =====
-- kernel/src/fs/initrd.rs. The file system's image: the table of inodes and the bytes behind it.
-- The two boxed slices are lists; an inode's `name` has 32 bytes of which the first `nlen` count.
pub mod Open
pub mod Safe
pub mod Read
pub mod Load
use servos.Prelude.{
  ℕ, zero, suc, ◌+◌, ◌-◌, ◌*◌, ◌^◌, Bool, true, false, ◌&&◌, Option, none, some, List, [], ◌∷◌, map,
  length, take, drop, get_elem?, ltb, leb, ◌==◌, if◌then◌else◌, min, not,
}
use servos.Fs.Result.{
  FsError, path_not_found, invalid_op, unsupported, corrupted_fs, eof, FsResult, ok, err, panic,
  VNode, ◌>>=◌,
}
use servos.Fs.Path.{Bytes, bytes_eq, components, names, is_absolute}

pub record INode : Type 0 where
  pub name : Bytes
  pub nlen : ℕ
  pub typ : ℕ
  pub size : ℕ
  pub addr : ℕ

abbrev pub inode_dir : ℕ
inode_dir = 1

pub record InitRd : Type 0 where
  pub inodes : List INode
  pub data_bytes : Bytes

abbrev pub u64_end : ℕ
u64_end = 2 ^ 64

-- INode::name_eq
unfoldable pub name_eq : INode → Bytes → Bool
name_eq n name = if ltb (length n.name) n.nlen then false else bytes_eq (take n.nlen n.name) name

-- u64::from_le_bytes
unfoldable pub from_le_bytes : Bytes → ℕ
from_le_bytes [] = 0
from_le_bytes (b ∷ bs) = b + 256 * from_le_bytes bs

-- InitRd::dir_entry; an address beyond the machine's words overflows
unfoldable pub dir_entry : InitRd → INode → ℕ → FsResult (Option (ℕ × INode))
dir_entry fs dir pos =
    let addr = dir.addr + pos * 8 in
    let entry = from_le_bytes (take 8 (drop addr fs.data_bytes)) in
    if leb dir.size pos
    then ok none
    else if leb u64_end (addr + 8)
    then panic
    else if ltb (length fs.data_bytes) (addr + 8)
    then ok none
    else elim (get_elem? fs.inodes entry) [ none ↦ ok none | some inode ↦ ok (some (entry, inode)) ]

-- the `for` of `open`: from entry `i` on, `n` entries left
unfoldable pub scan : InitRd → INode → Bytes → ℕ → ℕ → FsResult ℕ
scan fs dir name i zero = err path_not_found
scan fs dir name i (suc n) = dir_entry fs dir i >>= λ o. elim o [
  | none ↦ err corrupted_fs
  | some (entry_no, inode) ↦
      let rest = scan fs dir name (i + 1) n in if name_eq inode name then ok entry_no else rest
]

-- one turn of `'outer`
unfoldable pub enter_dir : InitRd → ℕ → Bytes → FsResult ℕ
enter_dir fs ino name = elim (get_elem? fs.inodes ino) [
  | none ↦ panic
  | some dir ↦
      if not (dir.typ == inode_dir) then err path_not_found else scan fs dir name 0 dir.size
]

-- `'outer`, over the components of the path
unfoldable pub walk : InitRd → ℕ → List Bytes → FsResult ℕ
walk fs ino [] = ok ino
walk fs ino (name ∷ rest) = enter_dir fs ino name >>= λ next. walk fs next rest

-- the vnode that `open` answers with
unfoldable pub vnode : InitRd → ℕ → FsResult VNode
vnode fs ino = elim (get_elem? fs.inodes ino) [
  | none ↦ panic
  | some n ↦ ok record { ino = ino; directory = n.typ == inode_dir; readonly = true }
]

-- `root.filter(|_| !path.is_absolute()).map(|r| r.ino).unwrap_or(0)`
unfoldable pub first_ino : Bytes → Option VNode → ℕ
first_ino path none = 0
first_ino path (some r) = if is_absolute path then 0 else r.ino

-- InitRd::open
unfoldable pub open_path : InitRd → Bytes → Option VNode → FsResult VNode
open_path fs path root =
    walk fs (first_ino path root) (names (components path)) >>= λ ino. vnode fs ino

-- InitRd::vnode_to_inode
unfoldable pub vnode_to_inode : InitRd → VNode → FsResult INode
vnode_to_inode fs vn = elim (get_elem? fs.inodes vn.ino) [ none ↦ err corrupted_fs | some n ↦ ok n ]

-- `self.data[start..][..len]`
unfoldable pub data_slice : InitRd → ℕ → ℕ → FsResult Bytes
data_slice fs start len =
    if leb u64_end start
    then panic
    else if ltb (length fs.data_bytes) (start + len)
    then panic
    else ok (take len (drop start fs.data_bytes))

-- InitRd::read, into a buffer of `buf` bytes: the bytes it is filled with
unfoldable pub read : InitRd → VNode → ℕ → ℕ → FsResult Bytes
read fs vn pos buf = vnode_to_inode fs vn >>= λ inode.
    if inode.typ == inode_dir
    then err invalid_op
    else if leb inode.size pos
    then err eof
    else data_slice fs (inode.addr + pos) (min buf (inode.size - pos))

-- InitRd::write
unfoldable pub write : InitRd → VNode → ℕ → Bytes → FsResult ℕ
write fs vn pos buf = err unsupported

pub record Stat : Type 0 where
  pub size : ℕ
  pub readonly : Bool
  pub directory : Bool

-- InitRd::stat_inode
unfoldable pub stat_inode : INode → Stat
stat_inode n = record { size = n.size; readonly = true; directory = n.typ == inode_dir }

-- InitRd::stat
unfoldable pub stat : InitRd → VNode → FsResult Stat
stat fs vn = vnode_to_inode fs vn >>= λ n. ok (stat_inode n)

pub record DirEntry : Type 0 where
  pub name : Bytes
  pub name_len : ℕ
  pub entry_stat : Stat

-- InitRd::readdir; the entry's name is the inode's 32 bytes, the rest of the array being zero
unfoldable pub readdir : InitRd → VNode → ℕ → FsResult (Option DirEntry)
readdir fs vn pos = vnode_to_inode fs vn >>= λ dir.
    if not (dir.typ == inode_dir)
    then err invalid_op
    else dir_entry fs dir pos >>= λ o. elim o [
      | none ↦ ok none
      | some (e, inode) ↦
          ok (
            some record { name = inode.name; name_len = inode.nlen; entry_stat = stat_inode inode })
    ]
