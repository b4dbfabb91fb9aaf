-- ===== src/Fs/Fd/Image.antt =====
-- The image of kernel/src/fs/initrd.rs as the file system of a descriptor.
use servos.Prelude.{ℕ, ◌≡◌, inl, inr, false, List, take, arith}
use servos.Fs.Result.{ok, VNode}
use servos.Fs.InitRd.{InitRd, INode}
use servos.Fs.InitRd as Rd
use servos.Fs.InitRd.Read.{IsFile, contents, read-contents, length-contents}
use servos.Fs.Fd.{FileSystem, new}
use servos.Fs.Fd.Reads.{Shows, reads, reads-file, total}

-- `impl FileSystem for InitRd`
unfoldable pub device : InitRd → FileSystem
device fs = record {
  read = Rd.read fs;
  write = Rd.write fs;
  readdir = Rd.readdir fs;
  stat = Rd.stat fs;
}

pub device-Shows :
    (fs : InitRd) (vn : VNode) (n : INode) → IsFile fs vn n → Shows (device fs) vn (contents fs n)
unfolding device
device-Shows fs vn n f pos buf = elim (read-contents fs vn n f pos buf) [
  | inl (le, e) ↦ inl (omega (arith, le, length-contents fs vn n f), e)
  | inr (lt, e) ↦ inr (omega (arith, lt, length-contents fs vn n f), e)
]

-- Opening a file of the image and reading it with one buffer after the other, of whatever sizes,
-- gives the file's contents, up to as many bytes as the buffers hold together.
pub reads-device :
    (fs : InitRd) (vn : VNode) (n : INode) (ns : List ℕ)
    → IsFile fs vn n
    → vn.directory ≡ false
    → reads ns (new vn (device fs)) ≡ ok (take (total ns) (contents fs n))
unfolding new
reads-device fs vn n ns f d =
    let h = f.fits in
    reads-file (device fs) vn (contents fs n) ns 0 d (omega (arith, length-contents fs vn n f))
      (device-Shows fs vn n f)
