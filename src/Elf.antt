-- ===== src/Elf.antt =====
-- kernel/src/elf.rs. A file is its bytes and the address that they are at, since a header is read in
-- place and its address has to be aligned. A structure is read field by field at the offsets of
-- `repr(C)`.
pub mod Bounds
pub mod Unaligned
mod Tests
use servos.Prelude.{
  ℕ, zero, suc, ◌+◌, ◌*◌, ◌%◌, Bool, true, false, not, ◌&&◌, Option, none, some, List, [], ◌∷◌,
  length, take, drop, get_elem?, get_or, ltb, leb, ◌==◌, if◌then◌else◌,
}
use servos.Prelude.Outcome.{Outcome, done, panic}
use servos.Fs.Path.{Bytes}
use servos.Sys.User.{from_le}

infixl 5 ◌>>=◌
-- `?` on an option, in code that may panic
abbrev pub ◌>>=◌ :
    {A B : Type 0} → Outcome (Option A) → (A → Outcome (Option B)) → Outcome (Option B)
done none >>= f = done none
done (some a) >>= f = f a
panic >>= f = panic

-- the field of `n` bytes at an offset
unfoldable pub field : ℕ → ℕ → Bytes → ℕ
field off n bytes = from_le (take n (drop off bytes))

pub record EHdr : Type 0 where
  pub ident : Bytes
  pub typ : ℕ
  pub machine : ℕ
  pub version : ℕ
  pub entry : ℕ
  pub phoff : ℕ
  pub shoff : ℕ
  pub phnum : ℕ
  pub shnum : ℕ
  pub shstrndx : ℕ

unfoldable pub ehdr_at : Bytes → EHdr
ehdr_at d = record {
  ident = take 16 d;
  typ = field 16 2 d;
  machine = field 18 2 d;
  version = field 20 4 d;
  entry = field 24 8 d;
  phoff = field 32 8 d;
  shoff = field 40 8 d;
  phnum = field 56 2 d;
  shnum = field 60 2 d;
  shstrndx = field 62 2 d;
}

-- the fields of a section header that the loader reads
pub record Shdr : Type 0 where
  pub offset : ℕ
  pub size : ℕ
  pub link : ℕ
  pub info : ℕ

unfoldable pub shdr_at : Bytes → Shdr
shdr_at d = record {
  offset = field 24 8 d;
  size = field 32 4 d;
  link = field 36 4 d;
  info = field 40 4 d;
}

pub record Phdr : Type 0 where
  pub typ : ℕ
  pub flags : ℕ
  pub offset : ℕ
  pub vaddr : ℕ
  pub paddr : ℕ
  pub filesz : ℕ
  pub memsz : ℕ
  pub align : ℕ

unfoldable pub phdr_at : Bytes → Phdr
phdr_at d = record {
  typ = field 0 4 d;
  flags = field 4 4 d;
  offset = field 8 8 d;
  vaddr = field 16 8 d;
  paddr = field 24 8 d;
  filesz = field 32 8 d;
  memsz = field 40 8 d;
  align = field 48 8 d;
}

pub record ElfFile : Type 0 where
  pub ehdr : EHdr
  pub sheaders : List Shdr
  pub pheaders : List Phdr
  pub strtable : Option Bytes
  pub raw : Bytes

-- as_struct, of a structure of `size` bytes that is aligned to 8
unfoldable pub as_struct : {A : Type 0} → ℕ → (Bytes → A) → ℕ → Bytes → Outcome (Option A)
as_struct size read addr bytes =
    if ltb (length bytes) size
    then done none
    else if addr % 8 == 0
    then done (some (read bytes))
    else panic

-- `from_raw_parts` of `count` structures
unfoldable pub read_all : {A : Type 0} → ℕ → (Bytes → A) → ℕ → Bytes → List A
read_all size read zero bytes = []
read_all size read (suc count) bytes = read bytes ∷ read_all size read count (drop size bytes)

-- as_slice
unfoldable pub as_slice : {A : Type 0} → ℕ → (Bytes → A) → ℕ → Bytes → ℕ → Outcome (Option (List A))
as_slice size read addr bytes count =
    if ltb (length bytes) (size * count)
    then done none
    else if addr % 8 == 0
    then done (some (read_all size read count bytes))
    else panic

-- `file.get(off..)`
unfoldable pub get_from : ℕ → Bytes → Option Bytes
get_from off file = if leb off (length file) then some (drop off file) else none

-- the test of the header
unfoldable pub is_supported : EHdr → Bool
is_supported h =
    get_or h.ident 0 0 == 0x7f
    && get_or h.ident 1 0 == 0x45
    && get_or h.ident 2 0 == 0x4c
    && get_or h.ident 3 0 == 0x46
    && get_or h.ident 4 0 == 2
    && get_or h.ident 5 0 == 1
    && get_or h.ident 6 0 == 1
    && h.typ == 2
    && h.machine == 243
    && h.version == 1

-- the field `strtable`; `none` is a failure of the whole
unfoldable pub find_strtable : EHdr → Shdr → List Shdr → Bytes → Option (Option Bytes)
find_strtable ehdr sh_zero sheaders file =
    if ehdr.shstrndx == 0
    then some none
    else let idx = (if ehdr.shstrndx == 0xffff then sh_zero.link else ehdr.shstrndx) in
      elim (get_elem? sheaders idx) [
        | none ↦ none
        | some sh ↦ elim (get_from sh.offset file) [ none ↦ none | some t ↦ some (some t) ]
      ]

-- ElfFile::new
unfoldable pub new : ℕ → Bytes → Outcome (Option ElfFile)
new addr file = as_struct 64 ehdr_at addr file >>= λ ehdr.
    if not (is_supported ehdr)
    then done none
    else (done (get_from ehdr.shoff file) >>= λ sh.
        as_struct 56 shdr_at (addr + ehdr.shoff) sh >>= λ sh_zero.
        let phnum = (if ehdr.phnum == 0xffff then sh_zero.info else ehdr.phnum) in
        let shnum = (if leb 0xff00 ehdr.shnum then sh_zero.size else ehdr.shnum) in
        as_slice 56 shdr_at (addr + ehdr.shoff) sh shnum >>= λ sheaders.
        done (get_from ehdr.phoff file) >>= λ ph.
        as_slice 56 phdr_at (addr + ehdr.phoff) ph phnum >>= λ pheaders.
        done (find_strtable ehdr sh_zero sheaders file) >>= λ strtable. done (
          some (record {
            ehdr = ehdr;
            sheaders = sheaders;
            pheaders = pheaders;
            strtable = strtable;
            raw = file;
          })))
