-- ===== src/Fs/Devices/Tests.antt =====
-- The device directory with the devices `zero` and `null`.
use servos.Prelude.{◌≡◌, refl, true, false, not, none, [], ◌∷◌, length}
use servos.Fs.Path.{Bytes, components, split, non_empty, path_eq, same_first}
use servos.Fs.Result.{VNode, ok}
use servos.Fs.Devices.{
  DeviceFs, null_device, zero_device, find_device, find_from, added, add_device, open_device,
  read_write, read,
}
use servos.Fs.Devices.Open.{found_after, add_device-open}

abbrev zero_name : Bytes
zero_name = b'z' ∷ b'e' ∷ b'r' ∷ b'o' ∷ []

abbrev null_name : Bytes
null_name = b'n' ∷ b'u' ∷ b'l' ∷ b'l' ∷ []

abbrev devices : DeviceFs
devices = (zero_name, zero_device) ∷ []

null-components : length (components null_name) ≡ 1
unfolding components split non_empty
null-components = refl

null-fresh : find_device null_name devices ≡ none
unfolding find_device find_from path_eq same_first
null-fresh = refl

add_device-open_example :
    (fs' : DeviceFs) × (vn : VNode) × (add_device null_name null_device true devices ≡ added fs')
    × (open_device null_name 4 none fs' ≡ ok vn)
    × (vn ≡ record { ino = length devices; directory = false; readonly = not (read_write 4) })
    × (read fs' vn 0 16 ≡ null_device.read 0 16)
    × (find_device zero_name fs'
        ≡ found_after (length devices) null_name zero_name (find_device zero_name devices))
add_device-open_example =
    add_device-open null_name zero_name null_device 4 0 16 devices null-components null-fresh
