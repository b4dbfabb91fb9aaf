-- ===== src/Elf/Bounds.antt =====
-- What a file that was accepted is sure to hold.
use servos.Prelude.{
  ℕ, zero, suc, ◌+◌, ◌*◌, ◌%◌, ◌≤◌, ◌≡◌, refl, ap, sym, ◌∙◌, Bool, true, false, not, Option, none,
  some, List, [], ◌∷◌, length, drop, length-drop, ltb, leb, ◌==◌, if◌then◌else◌, arith,
}
use servos.Prelude.Outcome.{Outcome, done, panic}
use servos.Fs.Path.{Bytes}
use servos.Elf.{
  ◌>>=◌, EHdr, Shdr, Phdr, ElfFile, ehdr_at, shdr_at, phdr_at, as_struct, as_slice, read_all,
  get_from, is_supported, find_strtable, new,
}

drop-drop : (i j k : ℕ) (l : Bytes) → j + i ≡ k → drop i (drop j l) ≡ drop k l
drop-drop i zero k l e = ap (λ n. drop n l) (omega arith)
drop-drop zero (suc j) zero [] e = refl
drop-drop zero (suc j) (suc k) [] e = refl
drop-drop (suc i) (suc j) zero [] e = refl
drop-drop (suc i) (suc j) (suc k) [] e = refl
drop-drop i (suc j) zero (x ∷ l) e = absurd (omega arith)
drop-drop i (suc j) (suc k) (x ∷ l) e = drop-drop i j k l (omega arith)

-- The program headers of a file, by the offset of each.
unfoldable pub headers_at : ℕ → ℕ → Bytes → List Phdr
headers_at off zero file = []
headers_at off (suc n) file = phdr_at (drop off file) ∷ headers_at (off + 56) n file

read_all-headers_at :
    (off n : ℕ) (file : Bytes) → read_all 56 phdr_at n (drop off file) ≡ headers_at off n file
unfolding read_all headers_at
read_all-headers_at off zero file = refl
read_all-headers_at off (suc n) file =
    ap (λ d. phdr_at (drop off file) ∷ read_all 56 phdr_at n d)
      (drop-drop 56 off (off + 56) file refl)
    ∙ ap (λ l. phdr_at (drop off file) ∷ l) (read_all-headers_at (off + 56) n file)

-- What a step of the loader leaves: it refuses the file, or goes on with what `P` says.
pub data Goes {A : Type 0} (P : A → Type 0) : Outcome (Option A) → Type 0 where
  refused : Goes P (done none)
  accepted : (a : A) → P a → Goes P (done (some a))

bind-Goes :
    {A B : Type 0} {P : A → Type 0} {Q : B → Type 0} (x : Outcome (Option A))
    (f : A → Outcome (Option B))
    → Goes P x
    → ((a : A) → P a → Goes Q (f a))
    → Goes Q (x >>= f)
bind-Goes x f refused g = refused
bind-Goes x f (accepted a p) g = g a p

as_struct-Goes :
    {A : Type 0} (size : ℕ) (read : Bytes → A) (addr : ℕ) (bytes : Bytes)
    → addr % 8 ≡ 0
    → Goes (λ a. a ≡ read bytes) (as_struct size read addr bytes)
unfolding as_struct
as_struct-Goes size read addr bytes h =
    go (ltb (length bytes) size) (addr % 8 == 0) (ap (λ n. n == 0) h)
  where
    go :
        (b c : Bool)
        → c ≡ true
        → Goes
            (λ a. a ≡ read bytes)
            (if b then done none else if c then done (some (read bytes)) else panic)
    go true c e = refused
    go false true e = accepted (read bytes) refl
    go false false e = absurd (ground arith)

as_slice-Goes :
    {A : Type 0} (size : ℕ) (read : Bytes → A) (addr : ℕ) (bytes : Bytes) (count : ℕ)
    → addr % 8 ≡ 0
    → Goes
        (λ l. (l ≡ read_all size read count bytes) × (size * count ≤ length bytes))
        (as_slice size read addr bytes count)
unfolding as_slice
as_slice-Goes size read addr bytes count h =
    go (ltb (length bytes) (size * count)) (addr % 8 == 0) (ap (λ n. n == 0) h) (λ e. ground arith)
  where
    go :
        (b c : Bool)
        → c ≡ true
        → (b ≡ false → size * count ≤ length bytes)
        → Goes
            (λ l. (l ≡ read_all size read count bytes) × (size * count ≤ length bytes))
            (if b
              then done none
              else if c
              then done (some (read_all size read count bytes))
              else panic)
    go true c e f = refused
    go false true e f = accepted (read_all size read count bytes) (refl, f refl)
    go false false e f = absurd (ground arith)

get_from-Goes :
    (off : ℕ) (file : Bytes)
    → Goes (λ d. (d ≡ drop off file) × (off ≤ length file)) (done (get_from off file))
unfolding get_from
get_from-Goes off file = go (leb off (length file)) (λ e. ground arith)
  where
    go :
        (b : Bool)
        → (b ≡ true → off ≤ length file)
        → Goes
            (λ d. (d ≡ drop off file) × (off ≤ length file))
            (done (if b then some (drop off file) else none))
    go true f = accepted (drop off file) (refl, f refl)
    go false f = refused

option-Goes : {A : Type 0} (o : Option A) → Goes (λ a. Unit {0}) (done o)
option-Goes none = refused
option-Goes (some a) = accepted a tt

-- What an accepted file holds: it is a RISC-V executable, and the program headers are those at the
-- offset that its header names, all within the file.
unfoldable pub IsLoadable : Bytes → ElfFile → Type 0
IsLoadable file elf =
    (elf.raw ≡ file)
    × (elf.ehdr ≡ ehdr_at file)
    × (is_supported (ehdr_at file) ≡ true)
    × ((n : ℕ) × (elf.pheaders ≡ headers_at (ehdr_at file).phoff n file)
        × ((ehdr_at file).phoff + 56 * n ≤ length file))

if-Goes :
    {A : Type 0} {P : A → Type 0} (b : Bool) (x : Outcome (Option A))
    → (b ≡ true → Goes P x)
    → Goes P (if not b then done none else x)
if-Goes true x f = f refl
if-Goes false x f = refused

-- the sum of aligned numbers
aligned :
    (a : ℕ) (e : EHdr) (f : EHdr → ℕ) (file : Bytes)
    → e ≡ ehdr_at file
    → a % 8 ≡ 0
    → f (ehdr_at file) % 8 ≡ 0
    → (a + f e) % 8 ≡ 0
aligned a e f file p h g =
    let q = ap f p in let m : f e % 8 ≡ 0 = ap (λ x. f x % 8) p ∙ g in omega arith

loadable :
    (file : Bytes) (ehdr : EHdr) (sheaders : List Shdr) (pheaders : List Phdr)
    (strtable : Option Bytes) (ph : Bytes) (count : ℕ)
    → ehdr ≡ ehdr_at file
    → is_supported ehdr ≡ true
    → (ph ≡ drop ehdr.phoff file) × (ehdr.phoff ≤ length file)
    → (pheaders ≡ read_all 56 phdr_at count ph) × (56 * count ≤ length ph)
    → IsLoadable file (record {
      ehdr = ehdr;
      sheaders = sheaders;
      pheaders = pheaders;
      strtable = strtable;
      raw = file;
    })
unfolding IsLoadable
loadable file ehdr sheaders pheaders strtable ph count p supported (q, l) (r, m) =
    let off = ap (λ (e : EHdr). e.phoff) p in
    let size = ap length q in
    (
      refl,
      p,
      ap is_supported (sym p) ∙ supported,
      (
        count,
        r
            ∙ (ap (read_all 56 phdr_at count) q
                ∙ (read_all-headers_at ehdr.phoff count file
                    ∙ ap (λ o. headers_at o count file) off)),
        omega (arith, length-drop ehdr.phoff file),
      ),
    )

-- When the file is at an aligned address and the offsets of its two tables of headers are aligned, the
-- loader does not panic: it refuses the file, or the file is a RISC-V executable, and the loader's
-- program headers are those at the offset that the file's header names, all within the file.
pub new-Goes :
    (addr : ℕ) (file : Bytes)
    → addr % 8 ≡ 0
    → (ehdr_at file).shoff % 8 ≡ 0
    → (ehdr_at file).phoff % 8 ≡ 0
    → Goes (IsLoadable file) (new addr file)
unfolding new IsLoadable
new-Goes addr file h hs hp =
    bind-Goes (as_struct 64 ehdr_at addr file) _ (as_struct-Goes 64 ehdr_at addr file h) (λ ehdr p.
      if-Goes (is_supported ehdr) _ (λ supported.
        let at_sh = aligned addr ehdr (λ e. e.shoff) file p h hs in
        let at_ph = aligned addr ehdr (λ e. e.phoff) file p h hp in
        bind-Goes (done (get_from ehdr.shoff file)) _ (get_from-Goes ehdr.shoff file) (λ sh u.
          bind-Goes (as_struct 56 shdr_at (addr + ehdr.shoff) sh) _
            (as_struct-Goes 56 shdr_at (addr + ehdr.shoff) sh at_sh)
            (λ sh_zero v.
              bind-Goes (as_slice 56 shdr_at (addr + ehdr.shoff) sh _) _
                (as_slice-Goes 56 shdr_at (addr + ehdr.shoff) sh _ at_sh)
                (λ sheaders w.
                  bind-Goes (done (get_from ehdr.phoff file)) _ (get_from-Goes ehdr.phoff file)
                    (λ ph q.
                      let count = (if ehdr.phnum == 0xffff then sh_zero.info else ehdr.phnum) in
                      bind-Goes (as_slice 56 phdr_at (addr + ehdr.phoff) ph count) _
                        (as_slice-Goes 56 phdr_at (addr + ehdr.phoff) ph count at_ph)
                        (λ pheaders r.
                          bind-Goes (done (find_strtable ehdr sh_zero sheaders file)) _
                            (option-Goes _)
                            (λ strtable x. accepted _ (
                              loadable file ehdr sheaders pheaders strtable ph count p supported q
                                r)))))))))
