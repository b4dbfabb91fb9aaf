-- ===== src/Fs/Devices/Open.antt =====
-- A device that was added is found under its name, and the others keep their numbers.
use servos.Prelude.{
  ℕ, suc, ◌+◌, ◌≡◌, refl, ap, sym, ◌∙◌, Bool, true, false, not, ◌&&◌, Option, none, some, List, [],
  ◌∷◌, ◌++◌, length, get_elem?, get_elem?-append, ◌==◌, if◌then◌else◌, arith, inl, inr, Bool-cases,
  ==_self,
}
use servos.Fs.Path.{Bytes, Component, components, path_eq, same_first, is_absolute}
use servos.Fs.Path.Prefix.{path_eq-names, none-some}
use servos.Fs.Result.{FsResult, ok, err, panic, VNode, path_not_found}
use servos.Fs.Devices.{
  Device, DeviceFs, find_from, find_device, added, already_mounted, panics, add_device, open_device,
  read_write, not_directory, read,
}

same_first_self : (p : Bytes) → same_first p p ≡ true
unfolding same_first
same_first_self [] = refl
same_first_self (x ∷ p) = ==_self x

path_eq_self : (p : Bytes) → path_eq p p ≡ true
path_eq_self p = (path_eq-names p p).1 (same_first_self p, refl)

-- a device behind the others
find_from-append :
    (i : ℕ) (name : Bytes) (dev : Device) (fs : DeviceFs)
    → find_from i name fs ≡ none
    → find_from i name (fs ++ (name, dev) ∷ []) ≡ some (i + length fs)
unfolding find_from
find_from-append i name dev [] h =
    let first : i ≡ i + 0 = omega arith in
    ap (λ b. if b then some i else none) (path_eq_self name) ∙ ap some first
find_from-append i name dev ((n, d) ∷ fs) h = elim (Bool-cases (path_eq n name)) [
  | inl e ↦ absurd (none-some (sym h ∙ ap (λ b. if b then some i else find_from (i + 1) name fs) e))
  | inr e ↦
      let rest =
        find_from-append (i + 1) name dev fs
          (sym (ap (λ b. if b then some i else find_from (i + 1) name fs) e) ∙ h) in
      let same : i + 1 + length fs ≡ i + suc (length fs) = omega arith in
      ap (λ b. if b then some i else find_from (i + 1) name (fs ++ (name, dev) ∷ [])) e
      ∙ (rest ∙ ap some same)
]

-- the number under which a name is found when a device was added: the one it had, or the new one
abbrev pub found_after : ℕ → Bytes → Bytes → Option ℕ → Option ℕ
found_after last name other (some j) = some j
found_after last name other none = if path_eq name other then some last else none

find_from-added :
    (i : ℕ) (name other : Bytes) (dev : Device) (fs : DeviceFs)
    → find_from i other (fs ++ (name, dev) ∷ [])
      ≡ found_after (i + length fs) name other (find_from i other fs)
unfolding find_from
find_from-added i name other dev [] =
    let last : i ≡ i + 0 = omega arith in ap (λ l. if path_eq name other then some l else none) last
find_from-added i name other dev ((n, d) ∷ fs) = elim (Bool-cases (path_eq n other)) [
  | inl e ↦
      ap (λ b. if b then some i else find_from (i + 1) other (fs ++ (name, dev) ∷ [])) e
      ∙ sym (
          ap
            (λ b.
              found_after (i + suc (length fs)) name other
                (if b then some i else find_from (i + 1) other fs))
            e)
  | inr e ↦
      let same : i + 1 + length fs ≡ i + suc (length fs) = omega arith in
      ap (λ b. if b then some i else find_from (i + 1) other (fs ++ (name, dev) ∷ [])) e
      ∙ (find_from-added (i + 1) name other dev fs
          ∙ (ap (λ l. found_after l name other (find_from (i + 1) other fs)) same
              ∙ sym (
                  ap
                    (λ b.
                      found_after (i + suc (length fs)) name other
                        (if b then some i else find_from (i + 1) other fs))
                    e)))
]

open_device-found :
    (path : Bytes) (flags i : ℕ) (fs : DeviceFs)
    → length (components path) ≡ 1
    → find_device path fs ≡ some i
    → open_device path flags none fs
      ≡ ok record { ino = i; directory = false; readonly = not (read_write flags) }
unfolding open_device not_directory
open_device-found path flags i fs one e =
    ap (λ b. if b then err path_not_found else at_root (components path) (find_device path fs))
      (and_false (not (is_absolute path)))
    ∙ (ap (at_root (components path)) e ∙ go (components path) one)
  where
    node : ℕ → FsResult VNode
    node ino = ok record { ino = ino; directory = false; readonly = not (read_write flags) }

    at_root : List Component → Option ℕ → FsResult VNode
    at_root l found = elim l [
      | [] ↦ ok record { ino = 0; directory = true; readonly = true }
      | c ∷ cs ↦ elim cs [
        | d ∷ ds ↦ err path_not_found
        | [] ↦ elim found [ none ↦ err path_not_found | some ino ↦ node ino ]
      ]
    ]

    and_false : (b : Bool) → (b && false) ≡ false
    and_false true = refl
    and_false false = refl

    go : (l : List Component) → length l ≡ 1 → at_root l (some i) ≡ node i
    go [] h = absurd (omega arith)
    go (c ∷ []) h = refl
    go (c ∷ d ∷ ds) h = absurd (omega arith)

get_elem?-last :
    (fs : DeviceFs) (x : Bytes × Device) → get_elem? (fs ++ x ∷ []) (length fs) ≡ some x
get_elem?-last fs x = get_elem?-append (length fs) fs [] x refl

-- A name of one component that no device has yet, when there is memory, can be added; it then opens as
-- the new device, whose number is the number of devices before, and whose reads are the reads of the
-- file. Any name that was found is still found, under the same number, and no other name is found but
-- those that are equal to the new one, as the new device.
pub add_device-open :
    (name other : Bytes) (dev : Device) (flags pos n : ℕ) (fs : DeviceFs)
    → length (components name) ≡ 1
    → find_device name fs ≡ none
    → (fs' : DeviceFs) × (vn : VNode) × (add_device name dev true fs ≡ added fs')
      × (open_device name flags none fs' ≡ ok vn)
      × (vn ≡ record { ino = length fs; directory = false; readonly = not (read_write flags) })
      × (read fs' vn pos n ≡ dev.read pos n)
      × (find_device other fs' ≡ found_after (length fs) name other (find_device other fs))
unfolding add_device find_device read
add_device-open name other dev flags pos n fs one fresh =
    let fs' : DeviceFs = fs ++ (name, dev) ∷ [] in
    let found : find_device name fs' ≡ some (length fs) =
      find_from-append 0 name dev fs fresh ∙ ap some (omega arith) in
    (
      fs',
      record { ino = length fs; directory = false; readonly = not (read_write flags) },
      ap
            (λ k.
              if not (k == 1)
              then panics
              else elim (find_device name fs) [ some i ↦ already_mounted | none ↦ added fs' ])
            one
          ∙ ap (λ o. elim o [ some i ↦ already_mounted | none ↦ added fs' ]) fresh,
      open_device-found name flags (length fs) fs' one found,
      refl,
      ap (λ o. elim o [ none ↦ panic | some (x, d) ↦ d.read pos n ])
          (get_elem?-last fs (name, dev)),
      find_from-added 0 name other dev fs
          ∙ ap (λ l. found_after l name other (find_device other fs)) (omega arith),
    )
