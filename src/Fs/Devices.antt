-- ===== src/Fs/Devices.antt =====
-- `DeviceFs` of kernel/src/fs/dev.rs: a directory of devices, which the paths of one component name,
-- and the devices of kernel/src/dev/null.rs and zero.rs. A device is what its two calls answer.
pub mod Open
mod Tests
use servos.Prelude.{
  ℕ, zero, suc, ◌+◌, ◌/◌, ◌%◌, Bool, true, false, not, ◌&&◌, Option, none, some, List, [], ◌∷◌,
  ◌++◌, length, get_elem?, replicate, ltb, ◌==◌, if◌then◌else◌,
}
use servos.Fs.Path.{Bytes, Component, components, path_eq, is_absolute}
use servos.Fs.Result.{FsError, eof, invalid_op, path_not_found, FsResult, ok, err, panic, VNode}
use servos.Fs.InitRd.{DirEntry, Stat}

-- the trait Device; `read` takes the length of the buffer
pub record Device : Type 0 where
  pub read : ℕ → ℕ → FsResult Bytes
  pub write : ℕ → Bytes → FsResult ℕ

abbrev pub DeviceFs : Type 0
DeviceFs = List (Bytes × Device)

-- NullDevice
unfoldable pub null_device : Device
null_device = record { read = λ pos n. err eof; write = λ pos b. err invalid_op }

-- ZeroDevice
unfoldable pub zero_device : Device
zero_device = record { read = λ pos n. ok (replicate n 0); write = λ pos b. err invalid_op }

-- `position(|(dev, _)| dev == name)`, with `i` the number of the first device
unfoldable pub find_from : ℕ → Bytes → DeviceFs → Option ℕ
find_from i name [] = none
find_from i name ((n, d) ∷ fs) =
    let rest = find_from (i + 1) name fs in if path_eq n name then some i else rest

-- DeviceFs::find_device
unfoldable pub find_device : Bytes → DeviceFs → Option ℕ
find_device name fs = find_from 0 name fs

-- what `add_device` comes to: a panic, an error, or the new list
pub data Added : Type 0 where
  added : DeviceFs → Added
  already_mounted no_memory panics : Added

-- DeviceFs::add_device; `reserved` is the answer of the reservation of memory
unfoldable pub add_device : Bytes → Device → Bool → DeviceFs → Added
add_device name dev reserved fs =
    if not (length (components name) == 1) then panics else elim (find_device name fs) [
      | some i ↦ already_mounted
      | none ↦ if reserved then added (fs ++ (name, dev) ∷ []) else no_memory
    ]

-- `flags.contains(OpenFlags::ReadWrite)`
unfoldable pub read_write : ℕ → Bool
read_write flags = flags / 4 % 2 == 1

-- `root.is_some_and(|r| !r.directory)`
unfoldable pub not_directory : Option VNode → Bool
not_directory none = false
not_directory (some vn) = not vn.directory

-- DeviceFs::open
unfoldable pub open_device : Bytes → ℕ → Option VNode → DeviceFs → FsResult VNode
open_device path flags root fs =
    if not (is_absolute path) && not_directory root
    then err path_not_found
    else elim (components path) [
      | [] ↦ ok record { ino = 0; directory = true; readonly = true }
      | c ∷ cs ↦ elim cs [
        | d ∷ ds ↦ err path_not_found
        | [] ↦ elim (find_device path fs) [
          | none ↦ err path_not_found
          | some ino ↦ ok record { ino = ino; directory = false; readonly = not (read_write flags) }
        ]
      ]
    ]

-- DeviceFs::read; an inode that is none is an index out of range
unfoldable pub read : DeviceFs → VNode → ℕ → ℕ → FsResult Bytes
read fs vn pos n = elim (get_elem? fs vn.ino) [ none ↦ panic | some (name, dev) ↦ dev.read pos n ]

-- DeviceFs::write
unfoldable pub write : DeviceFs → VNode → ℕ → Bytes → FsResult ℕ
write fs vn pos b = elim (get_elem? fs vn.ino) [ none ↦ panic | some (name, dev) ↦ dev.write pos b ]

-- DeviceFs::readdir; a name has to fit into the 256 bytes of the entry
unfoldable pub readdir : DeviceFs → VNode → ℕ → FsResult (Option DirEntry)
readdir fs vn pos = if not vn.directory then err invalid_op else elim (get_elem? fs pos) [
  | none ↦ ok none
  | some (name, dev) ↦
      if ltb 256 (length name)
      then panic
      else ok (
          some (record {
            name = name;
            name_len = length name;
            entry_stat = record { size = 0; readonly = false; directory = false };
          }))
]

-- DeviceFs::stat
unfoldable pub stat : VNode → FsResult Stat
stat vn =
    if vn.directory
    then ok record { size = 0; readonly = true; directory = true }
    else ok record { size = 0; readonly = false; directory = false }
