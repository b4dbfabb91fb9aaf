-- ===== src/Fs/InitRd/Load.antt =====
-- `InitRd::new` of kernel/src/fs/initrd.rs: an image in memory is read into the tables.
pub mod Le
pub mod RoundTrip
mod Tests
use servos.Prelude.{
  ℕ, zero, suc, ◌+◌, ◌*◌, ◌%◌, ◌^◌, Bool, true, false, not, ◌||◌, Option, none, some, List, [], ◌∷◌,
  length, take, drop, ltb, leb, ◌==◌, if◌then◌else◌,
}
use servos.Prelude.Outcome.{Outcome, done, panic}
use servos.Fs.Path.{Bytes}
use servos.Fs.InitRd.{INode, InitRd, inode_dir, from_le_bytes}

-- INITRD_MAGIC
abbrev pub initrd_magic : ℕ
initrd_magic = 0xce3fdefe

infixl 5 ◌>>=◌
-- `?` on an option, in code that may panic
abbrev pub ◌>>=◌ :
    {A B : Type 0} → Outcome (Option A) → (A → Outcome (Option B)) → Outcome (Option B)
done none >>= f = done none
done (some a) >>= f = f a
panic >>= f = panic

-- slice::split_at_checked
unfoldable pub split_at_checked : ℕ → Bytes → Option (Bytes × Bytes)
split_at_checked n bytes = if leb n (length bytes) then some (take n bytes, drop n bytes) else none

-- the field of `n` bytes at an offset
unfoldable pub field : ℕ → ℕ → Bytes → ℕ
field off n bytes = from_le_bytes (take n (drop off bytes))

pub record InitRdHeader : Type 0 where
  pub magic : ℕ
  pub reserved : ℕ
  pub ninodes : ℕ

unfoldable pub header_at : Bytes → InitRdHeader
header_at d = record { magic = field 0 4 d; reserved = field 4 4 d; ninodes = field 8 8 d }

-- size_of::<INode>()
abbrev pub inode_size : ℕ
inode_size = 48

unfoldable pub inode_at : Bytes → INode
inode_at d = record {
  name = take 32 d;
  nlen = field 32 2 d;
  typ = field 34 2 d;
  size = field 36 4 d;
  addr = field 40 8 d;
}

-- `from_raw_parts` of `count` inodes
unfoldable pub inodes_at : ℕ → Bytes → List INode
inodes_at zero bytes = []
inodes_at (suc count) bytes = inode_at bytes ∷ inodes_at count (drop inode_size bytes)

-- `header.ninodes as usize * size_of::<INode>()`, an overflow of which panics
unfoldable pub table_size : InitRdHeader → Outcome (Option ℕ)
table_size h =
    if ltb (h.ninodes * inode_size) (2 ^ 64) then done (some (h.ninodes * inode_size)) else panic

-- Whether a vector gets its bytes: it asks the global allocator for a block, whose answer is `room`,
-- if it needs any.
abbrev pub has_room : (ℕ → Bool) → ℕ → Bool
has_room room bytes = bytes == 0 || room bytes

-- try_vec_from_slice, of elements of `size` bytes
unfoldable pub try_vec_from_slice {ℓ} : {A : Type ℓ} → (ℕ → Bool) → ℕ → List A → Option (List A)
try_vec_from_slice room size slc = if has_room room (length slc * size) then some slc else none

-- `inodes.first().is_some_and(|i| i.typ == INODE_DIR)`
unfoldable pub has_root : List INode → Bool
has_root [] = false
has_root (i ∷ rest) = i.typ == inode_dir

-- InitRd::new, of the bytes at an address. The first copy is made with `room`, the second with
-- `room_left`.
unfoldable pub new : (ℕ → Bool) → (ℕ → Bool) → ℕ → Bytes → Outcome (Option InitRd)
new room room_left addr image =
    if not (addr % 8 == 0)
    then panic
    else (done (split_at_checked 16 image) >>= λ (head, behind).
        let header = header_at head in
        if not (header.magic == initrd_magic)
        then done none
        else (table_size header >>= λ size.
            done (split_at_checked size behind) >>= λ (table, files).
            done (try_vec_from_slice room inode_size (inodes_at header.ninodes table)) >>= λ inodes.
            if not (has_root inodes)
            then done none
            else (done (try_vec_from_slice room_left 1 files) >>= λ d.
                done (some (record { inodes = inodes; data_bytes = d })))))
