-- ===== src/Fs/InitRd/Load/Tests.antt =====
-- Images that are read, and the round trip at a concrete one.
use servos.Prelude.{◌≡◌, refl, true, none, some, [], ◌∷◌, replicate, arith}
use servos.Prelude.Outcome.{done, panic}
use servos.Fs.InitRd.{INode, InitRd, inode_dir, from_le_bytes}
use servos.Fs.InitRd.Load.{
  new, header_at, field, inode_at, inodes_at, table_size, split_at_checked, try_vec_from_slice,
  has_root,
}
use servos.Fs.InitRd.Load.Le.{to_le_bytes}
use servos.Fs.InitRd.Load.RoundTrip.{write_image, write_inodes, write_inode, Fits, new-write_image}

abbrev top : INode
top = record { name = replicate 32 0; nlen = 0; typ = inode_dir; size = 1; addr = 2 }

abbrev file : INode
file = record { name = b'a' ∷ replicate 31 0; nlen = 1; typ = 0; size = 2; addr = 0 }

abbrev rd : InitRd
rd = record {
  inodes = top ∷ file ∷ [];
  data_bytes = b'h' ∷ b'i' ∷ 1 ∷ 0 ∷ 0 ∷ 0 ∷ 0 ∷ 0 ∷ 0 ∷ 0 ∷ [];
}

reads_back : new (λ _. true) (λ _. true) 4096 (write_image rd) ≡ done (some rd)
unfolding new header_at field inode_at inodes_at table_size split_at_checked try_vec_from_slice
    has_root to_le_bytes write_image write_inodes write_inode from_le_bytes
reads_back = refl

too_short : new (λ _. true) (λ _. true) 4096 (0 ∷ []) ≡ done none
unfolding new split_at_checked
too_short = refl

unaligned : new (λ _. true) (λ _. true) 4 (write_image rd) ≡ panic
unfolding new
unaligned = refl

new-write_image_example : new (λ _. true) (λ _. true) 4096 (write_image rd) ≡ done (some rd)
unfolding has_root
new-write_image_example =
    new-write_image rd (omega arith) (fits_top, (fits_file, tt)) (λ _. true) (λ _. true) 4096 refl
  where
    fits_top : Fits top
    fits_top = record {
      name_bytes = refl;
      nlen_fits = omega arith;
      typ_fits = omega arith;
      size_fits = omega arith;
      addr_fits = omega arith;
    }

    fits_file : Fits file
    fits_file = record {
      name_bytes = refl;
      nlen_fits = omega arith;
      typ_fits = omega arith;
      size_fits = omega arith;
      addr_fits = omega arith;
    }
