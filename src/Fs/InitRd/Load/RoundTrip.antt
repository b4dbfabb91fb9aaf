-- ===== src/Fs/InitRd/Load/RoundTrip.antt =====
-- The image that mkfs.py writes, and what `InitRd::new` reads back from it.
use servos.Prelude.{
  ℕ, ◌+◌, ◌*◌, ◌%◌, ◌^◌, ◌<◌, ◌≡◌, refl, ap, ap₂, sym, ◌∙◌, Bool, ◌&&◌, none, some, List, [], ◌∷◌,
  ◌++◌, length, drop, take-append, drop-append, length-append, append_assoc, if◌then◌else◌, arith,
}
use servos.Prelude.Outcome.{done}
use servos.Fs.Path.{Bytes}
use servos.Fs.InitRd.{INode, InitRd}
use servos.Fs.InitRd.Load.{
  field, header_at, inode_at, inodes_at, inode_size, initrd_magic, table_size, split_at_checked,
  has_room, try_vec_from_slice, has_root, new,
}
use servos.Fs.InitRd.Load.Le.{
  to_le_bytes, length-to_le_bytes, field-skip, field-first, field_behind,
}

-- `node.name.encode().ljust(MAX_DIR_NAME)` and serialize_data, in front of what follows
unfoldable pub write_inode : INode → Bytes → Bytes
write_inode n rest =
    n.name
    ++ (to_le_bytes 2 n.nlen
        ++ (to_le_bytes 2 n.typ ++ (to_le_bytes 4 n.size ++ (to_le_bytes 8 n.addr ++ rest))))

-- the loop over the inodes
unfoldable pub write_inodes : List INode → Bytes → Bytes
write_inodes [] rest = rest
write_inodes (n ∷ ns) rest = write_inode n (write_inodes ns rest)

-- the file that `main` of mkfs.py writes
unfoldable pub write_image : InitRd → Bytes
write_image fs =
    to_le_bytes 4 initrd_magic
    ++ (to_le_bytes 4 0
        ++ (to_le_bytes 8 (length fs.inodes) ++ write_inodes fs.inodes fs.data_bytes))

-- Every field fits its place in the image.
pub record Fits (n : INode) : Type 0 where
  pub name_bytes : length n.name ≡ 32
  pub nlen_fits : n.nlen < 2 ^ 16
  pub typ_fits : n.typ < 2 ^ 16
  pub size_fits : n.size < 2 ^ 32
  pub addr_fits : n.addr < 2 ^ 64

abbrev pub AllFit : List INode → Type 0
AllFit [] = Unit
AllFit (n ∷ ns) = Fits n × AllFit ns

module _ (n : INode) (rest : Bytes) (f : Fits n) where
  -- An inode is read back.
  inode_at-write_inode : inode_at (write_inode n rest) ≡ n
  unfolding inode_at write_inode
  inode_at-write_inode = λ i. record {
    name = take-append 32 n.name behind_name f.name_bytes i;
    nlen = nlen_back i;
    typ = typ_back i;
    size = size_back i;
    addr = addr_back i;
  }
    where
      behind_typ : Bytes
      behind_typ = to_le_bytes 4 n.size ++ (to_le_bytes 8 n.addr ++ rest)

      behind_nlen : Bytes
      behind_nlen = to_le_bytes 2 n.typ ++ behind_typ

      behind_name : Bytes
      behind_name = to_le_bytes 2 n.nlen ++ behind_nlen

      nlen_back : field 32 2 (n.name ++ behind_name) ≡ n.nlen
      nlen_back =
          field-skip 32 0 2 n.name behind_name f.name_bytes
          ∙ field-first 2 n.nlen behind_nlen (omega (arith, f.nlen_fits))

      typ_back : field 34 2 (n.name ++ behind_name) ≡ n.typ
      typ_back =
          field-skip 32 2 2 n.name behind_name f.name_bytes
          ∙ (field_behind 2 0 2 n.nlen behind_nlen
              ∙ field-first 2 n.typ behind_typ (omega (arith, f.typ_fits)))

      size_back : field 36 4 (n.name ++ behind_name) ≡ n.size
      size_back =
          field-skip 32 4 4 n.name behind_name f.name_bytes
          ∙ (field_behind 2 2 4 n.nlen behind_nlen
              ∙ (field_behind 2 0 4 n.typ behind_typ
                  ∙ field-first 4 n.size (to_le_bytes 8 n.addr ++ rest)
                      (omega (arith, f.size_fits))))

      addr_back : field 40 8 (n.name ++ behind_name) ≡ n.addr
      addr_back =
          field-skip 32 8 8 n.name behind_name f.name_bytes
          ∙ (field_behind 2 6 8 n.nlen behind_nlen
              ∙ (field_behind 2 4 8 n.typ behind_typ
                  ∙ (field_behind 4 0 8 n.size (to_le_bytes 8 n.addr ++ rest)
                      ∙ field-first 8 n.addr rest (omega (arith, f.addr_fits)))))

write_inode-append : (n : INode) (xs ys : Bytes) → write_inode n (xs ++ ys) ≡ write_inode n xs ++ ys
unfolding write_inode
write_inode-append n xs ys = simp append_assoc

write_inodes-append :
    (ns : List INode) (xs ys : Bytes) → write_inodes ns (xs ++ ys) ≡ write_inodes ns xs ++ ys
unfolding write_inodes
write_inodes-append [] xs ys = refl
write_inodes-append (n ∷ ns) xs ys =
    ap (write_inode n) (write_inodes-append ns xs ys) ∙ write_inode-append n (write_inodes ns xs) ys

length-write_inode :
    (n : INode) (rest : Bytes) → Fits n → length (write_inode n rest) ≡ inode_size + length rest
unfolding write_inode
length-write_inode n rest f = omega (arith, f.name_bytes, length-append {0}, length-to_le_bytes)

drop-write_inode : (n : INode) (rest : Bytes) → Fits n → drop inode_size (write_inode n rest) ≡ rest
drop-write_inode n rest f =
    ap (drop inode_size) (write_inode-append n [] rest)
    ∙ drop-append inode_size (write_inode n []) rest (length-write_inode n [] f)

length-write_inodes :
    (ns : List INode) → AllFit ns → length (write_inodes ns []) ≡ length ns * inode_size
unfolding write_inodes
length-write_inodes [] f = refl
length-write_inodes (n ∷ ns) f =
    omega (arith, length-write_inode n (write_inodes ns []) f.0, length-write_inodes ns f.1)

-- The table is read back.
inodes_at-write_inodes :
    (ns : List INode) → AllFit ns → inodes_at (length ns) (write_inodes ns []) ≡ ns
unfolding write_inodes inodes_at
inodes_at-write_inodes [] f = refl
inodes_at-write_inodes (n ∷ ns) f = ap₂ ◌∷◌ (inode_at-write_inode n (write_inodes ns []) f.0) (
    ap (inodes_at (length ns)) (drop-write_inode n (write_inodes ns []) f.0)
    ∙ inodes_at-write_inodes ns f.1)

split_at_checked-append :
    (k : ℕ) (xs ys : Bytes) → length xs ≡ k → split_at_checked k (xs ++ ys) ≡ some (xs, ys)
unfolding split_at_checked
split_at_checked-append k xs ys e =
    ground (arith, length-append xs ys, take-append k xs ys e, drop-append k xs ys e)

module _ (fs : InitRd) (small : length fs.inodes * inode_size < 2 ^ 64) (f : AllFit fs.inodes) where
  head : Bytes
  head = to_le_bytes 4 initrd_magic ++ (to_le_bytes 4 0 ++ (to_le_bytes 8 (length fs.inodes) ++ []))

  image-split :
      split_at_checked 16 (write_image fs) ≡ some (head, write_inodes fs.inodes fs.data_bytes)
  unfolding write_image head
  image-split =
      let behind = write_inodes fs.inodes fs.data_bytes in
      let e : head ++ behind ≡ write_image fs = simp append_assoc in
      ap (split_at_checked 16) (sym e)
      ∙ split_at_checked-append 16 head behind
          (omega (arith, length-append {0}, length-to_le_bytes))

  head-magic : (header_at head).magic ≡ initrd_magic
  unfolding header_at head
  head-magic =
      field-first 4 initrd_magic (to_le_bytes 4 0 ++ (to_le_bytes 8 (length fs.inodes) ++ []))
        (omega arith)

  head-ninodes : (header_at head).ninodes ≡ length fs.inodes
  unfolding header_at head
  head-ninodes =
      let count = to_le_bytes 8 (length fs.inodes) ++ [] in
      field_behind 4 4 8 initrd_magic (to_le_bytes 4 0 ++ count)
      ∙ (field_behind 4 0 8 0 count ∙ field-first 8 (length fs.inodes) [] (omega (arith, small)))

  table-split :
      split_at_checked (length fs.inodes * inode_size) (write_inodes fs.inodes fs.data_bytes)
      ≡ some (write_inodes fs.inodes [], fs.data_bytes)
  table-split =
      ap (split_at_checked (length fs.inodes * inode_size))
        (write_inodes-append fs.inodes [] fs.data_bytes)
      ∙ split_at_checked-append (length fs.inodes * inode_size) (write_inodes fs.inodes [])
          fs.data_bytes (length-write_inodes fs.inodes f)

  -- The image that is written for tables whose fields fit their places is read back as these tables,
  -- from an aligned address, exactly when the first inode is a directory and both copies have room;
  -- otherwise the answer is none, and there is no panic.
  pub new-write_image :
      (room room_left : ℕ → Bool) (addr : ℕ)
      → addr % 8 ≡ 0
      → new room room_left addr (write_image fs)
        ≡ done (
            if has_root fs.inodes
              && (has_room room (length fs.inodes * inode_size)
                  && has_room room_left (length fs.data_bytes * 1))
            then some fs
            else none)
  unfolding new table_size try_vec_from_slice
  new-write_image room room_left addr aligned = ground (
    arith,
    image-split,
    head-magic,
    head-ninodes,
    table-split,
    inodes_at-write_inodes fs.inodes f,
  )
