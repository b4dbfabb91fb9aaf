-- ===== src/Vmm/Vaddr/Tests.antt =====
-- The laws of entries at concrete numbers.
use servos.Prelude.{◌≡◌, refl, arith}
use servos.Vmm.Pte.{next, new_entry, leaf, intersects}
use servos.Vmm.Pte.Flag
use servos.Vmm.Pte.Fields.{next-new_entry_leaf}

next-new_entry_leaf_example : next (new_entry 0x80001234 Flag.urw) ≡ leaf 0x80001000
unfolding intersects
next-new_entry_leaf_example = next-new_entry_leaf 0x80001234 Flag.urw (omega arith) refl
