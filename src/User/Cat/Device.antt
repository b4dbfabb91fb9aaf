-- ===== src/User/Cat/Device.antt =====
-- cat over the kernel: a descriptor of kernel/src/fs/vfs.rs for a file of the initial ramdisk, read into
-- cat's buffer in user memory as sys_read does.
use servos.Prelude.{
  ℕ, suc, true, ◌+◌, ◌-◌, ◌^◌, ◌<◌, ◌≤◌, ◌≡◌, inl, inr, refl, ap, sym, ◌∙◌, false, Option, none,
  some, [], ◌∷◌, ◌++◌, append-nil, length, bit_or, arith, eq-or-ne, ◌==◌, ==_self, ne→==,
  if◌then◌else◌,
}
use servos.Prelude.Outcome.{Outcome, done, panic}
use servos.Vmm.Vaddr.{page_number, page_offset}
use servos.Vmm.Vaddr.Fields.{page_offset-mod}
use servos.Vmm.Memory.{Memory}
use servos.Vmm.Pte.Flag
use servos.Vmm.Translate.{to_phys}
use servos.Vmm.Copy.{copy_from, write_bytes}
use servos.Vmm.Copy.Back.{copy_from-page, read_bytes-write_bytes}
use servos.Fs.Path.{Bytes}
use servos.Fs.Result.{FsResult, VNode, eof}
use servos.Fs.Result as Fs
use servos.Fs.InitRd.{InitRd, INode}
use servos.Fs.InitRd.Read.{IsFile, contents, length-contents}
use servos.Fs.Fd.{Fd, u64_max, new}
use servos.Fs.Fd.Image.{device, device-Shows}
use servos.Fs.Fd.User.{read_va}
use servos.Fs.Fd.Pages.{
  writable, dev_read_va-end, dev_read_va-short, dev_read_va-boundary, read_va-err, read_va-ok,
  to_phys-write_bytes,
}
use servos.Sys.Code.{SysError, bad_syscall, from_fs}
use servos.User.Calls.{Result, ok, err, Calls}
use servos.User.Cat.{buf_size, copy_all}

-- one open file, the memory of the machine, and what was written to the screen
pub record World : Type 0 where
  pub file : Fd
  pub memory : Memory
  pub screen : Bytes

-- The program's loads translate as copy_from does; where it has no memory it would be stopped.
abbrev of_load : Outcome (Option Bytes) → Result Bytes
of_load (done (some bs)) = ok bs
of_load (done none) = err bad_syscall
of_load panic = err bad_syscall

module _ (pt buf : ℕ) where
  -- what the program finds in its buffer, of as many bytes as a read says
  abbrev loaded : FsResult ℕ → Memory → Result Bytes
  loaded (Fs.ok count) m = of_load (copy_from pt buf count m)
  loaded (Fs.err e) m = err (from_fs e)
  loaded Fs.panic m = err bad_syscall

  -- sys_read, for the process with the page table `pt`, into the buffer at `buf`
  abbrev read_call : ℕ → ℕ → World → Result Bytes × World
  read_call pos n w =
      let ((r, f), m) = read_va w.file pos pt buf n w.memory in
      (loaded r m, record w { file = f; memory = m })

  -- The calls that cat makes after `open`: a read, and a write to the screen. The others are refused.
  abbrev pub calls : Calls World
  calls = record {
    open_file = λ path flags w. (ok 2, w);
    close = λ fd w. (ok tt, w);
    read = λ fd pos n w. read_call (elim pos [ none ↦ u64_max | some p ↦ p ]) n w;
    write = λ fd pos bs w. (ok (length bs), record w { screen = w.screen ++ bs });
    chdir = λ path w. (err bad_syscall, w);
    spawn = λ path args w. (err bad_syscall, w);
    waitpid = λ pid w. (err bad_syscall, w);
    kill = λ pid w. (err bad_syscall, w);
    shutdown = λ restart w. (bad_syscall, w);
    getpid = λ w. (1, w);
    stat = λ fd w. (err bad_syscall, w);
    readdir = λ fd pos w. (err bad_syscall, w);
    sbrk = λ n w. (err bad_syscall, w);
    say = λ r w. w;
    is_utf8 = λ bs. true;
    parse_u32 = λ bs. none;
  }

  after_read : ℕ → ℕ → Result Bytes × World → Option World
  after_read fuel fd y = elim y.0 [
    | err e ↦ some y.1
    | ok bs ↦ copy_all calls fuel fd (calls.write 0 none bs y.1).1
  ]

  ends :
      (fuel fd : ℕ) (x : SysError) (w w1 : World)
      → read_call u64_max buf_size w ≡ (err x, w1)
      → copy_all calls (suc fuel) fd w ≡ some w1
  unfolding copy_all after_read
  ends fuel fd x w w1 e = ap (after_read fuel fd) e

  goes_on :
      (fuel fd : ℕ) (bs : Bytes) (w w1 : World)
      → read_call u64_max buf_size w ≡ (ok bs, w1)
      → copy_all calls (suc fuel) fd w
        ≡ copy_all calls fuel fd (record w1 { screen = w1.screen ++ bs })
  unfolding copy_all after_read
  goes_on fuel fd bs w w1 e = ap (after_read fuel fd) e

-- A file of the image, just opened; and a buffer of cat whose first page is mapped for the kernel's
-- writes and the program's reads.
module _ (fs : InitRd) (vn : VNode) (n : INode) (is_file : IsFile fs vn n)
    (no_dir : vn.directory ≡ false) (pt buf p : ℕ) (m : Memory) (screen : Bytes)
    (low : buf + 0x4000 + 4096 < 2 ^ 64) (mapped : to_phys pt buf writable m ≡ some p) where
  abbrev opened : World
  opened = record { file = new vn (device fs); memory = m; screen = screen }

  -- what a call of `read` makes of what read_va comes to
  abbrev answer : World → (FsResult ℕ × Fd) × Memory → Result Bytes × World
  answer w x = (loaded pt buf x.0.0 x.1, record w { file = x.0.1; memory = x.1 })

  -- a read behind the end
  at_end :
      (pos : ℕ) (m' : Memory) (shown : Bytes)
      → length (contents fs n) ≤ pos
      → to_phys pt buf writable m' ≡ some p
      → (let w : World = record {
        file = record { node = vn; dev = device fs; pos = pos };
        memory = m';
        screen = shown;
      } in
          read_call pt buf u64_max buf_size w ≡ (err (from_fs eof), w))
  at_end pos m' shown h e =
      let fd : Fd = record { node = vn; dev = device fs; pos = pos } in
      let w : World = record { file = fd; memory = m'; screen = shown } in
      ap (answer w) (
        read_va-err fd pt buf buf_size m' m' no_dir eof (
          dev_read_va-end (device fs) vn (contents fs n) (device-Shows fs vn n is_file) pt buf
            buf_size m' p (omega arith) (omega arith) e pos h))

  -- When the file ends before the first page of the buffer does, cat writes it to the screen.
  copy_all-short :
      (fd fuel : ℕ)
      → length (contents fs n) < 4096 - page_offset buf
      → to_phys pt buf (bit_or Flag.u Flag.r) m ≡ some p
      → (w' : World) × (copy_all (calls pt buf) (suc (suc fuel)) fd opened ≡ some w')
        × (w'.screen ≡ screen ++ contents fs n)
  unfolding new
  copy_all-short fd fuel h readable = elim (eq-or-ne (length (contents fs n)) 0) [
    | inl z ↦ (
      opened,
      ends pt buf (suc fuel) fd (from_fs eof) opened opened
          (at_end 0 m screen (omega arith) mapped),
      nothing (contents fs n) z,
    )
    | inr some_bytes ↦
        let file = contents fs n in
        let m1 = write_bytes p file m in
        let fd1 : Fd = record { node = vn; dev = device fs; pos = 0 + length file } in
        let w1 : World = record { file = fd1; memory = m1; screen = screen } in
        let w2 : World = record { file = fd1; memory = m1; screen = screen ++ file } in
        let fits = is_file.fits in
        let small : 0 + length file < 2 ^ 64 = omega (arith, length-contents fs vn n is_file) in
        let still : to_phys pt buf writable m1 ≡ some p =
          to_phys-write_bytes pt buf writable p file m ∙ mapped in
        let read_one =
          read_va-ok (new vn (device fs)) pt buf buf_size m m1 no_dir (length file) small (
            dev_read_va-short (device fs) vn file (device-Shows fs vn n is_file) pt buf buf_size m p
              (omega arith) (omega arith) mapped (omega arith) (omega arith)) in
        let back : copy_from pt buf (length file) m1 ≡ done (some file) =
          copy_from-page pt buf (length file) p m1 (omega arith) (omega arith) (omega arith)
            (to_phys-write_bytes pt buf (bit_or Flag.u Flag.r) p file m ∙ readable)
          ∙ ap (λ l. done (some l)) (read_bytes-write_bytes p file m) in
        (
          w2,
          goes_on pt buf (suc fuel) fd file opened w1
                (ap (answer opened) read_one ∙ ap (λ o. (of_load o, w1)) back)
              ∙ ends pt buf fuel fd (from_fs eof) w2 w2
                  (at_end (0 + length file) m1 (screen ++ file) (omega arith) still),
          refl,
        )
  ]
    where
      nothing : (bs : Bytes) → length bs ≡ 0 → screen ≡ screen ++ bs
      nothing [] z = sym (append-nil screen)
      nothing (b ∷ bs) z = absurd (omega arith)

  -- When the file ends exactly where the first page of the buffer does, cat writes nothing.
  copy_all-boundary :
      (fd fuel q : ℕ)
      → length (contents fs n) ≡ 4096 - page_offset buf
      → to_phys pt (page_number (buf + 4096)) writable m ≡ some q
      → (w' : World) × (copy_all (calls pt buf) (suc fuel) fd opened ≡ some w')
        × (w'.screen ≡ screen)
  unfolding new
  copy_all-boundary fd fuel q h next_mapped =
      let file = contents fs n in
      let m1 = write_bytes p file m in
      let w1 : World = record { file = new vn (device fs); memory = m1; screen = screen } in
      let o = page_offset-mod buf in
      (
        w1,
        ends pt buf fuel fd (from_fs eof) opened w1 (
            ap (answer opened) (
              read_va-err (new vn (device fs)) pt buf buf_size m m1 no_dir eof (
                dev_read_va-boundary (device fs) vn file (device-Shows fs vn n is_file) pt buf
                  buf_size m p (omega arith) (omega arith) mapped q (omega arith) h (omega arith)
                  next_mapped))),
        refl,
      )

  -- cat, once it has opened a file of the image that ends within the first page of its buffer, or
  -- where that page ends, is done after two rounds at most. It has then written the contents of the
  -- file, when this ends before the page does, and nothing at all, when it ends where the page ends.
  -- The first page of the buffer is mapped, at one place for writing and reading, and so is the next.
  pub copy_all-page :
      (fd fuel q : ℕ)
      → length (contents fs n) ≤ 4096 - page_offset buf
      → to_phys pt buf (bit_or Flag.u Flag.r) m ≡ some p
      → to_phys pt (page_number (buf + 4096)) writable m ≡ some q
      → (w' : World) × (copy_all (calls pt buf) (suc (suc fuel)) fd opened ≡ some w')
        × (w'.screen
            ≡ screen
              ++ (if length (contents fs n) == 4096 - page_offset buf then [] else contents fs n))
  copy_all-page fd fuel q h readable next_mapped =
      elim (eq-or-ne (length (contents fs n)) (4096 - page_offset buf)) [
        | inl e ↦
            let (w', ran, shown) = copy_all-boundary fd (suc fuel) q e next_mapped in
            let same : (length (contents fs n) == 4096 - page_offset buf) ≡ true =
              ap (λ l. l == 4096 - page_offset buf) e ∙ ==_self (4096 - page_offset buf) in
            (
              w',
              ran,
              shown
                  ∙ (sym (append-nil screen)
                      ∙ ap (λ b. screen ++ (if b then [] else contents fs n)) (sym same)),
            )
        | inr ne ↦
            let (w', ran, shown) = copy_all-short fd fuel (omega arith) readable in
            (
              w',
              ran,
              shown
                  ∙ ap (λ b. screen ++ (if b then [] else contents fs n))
                      (sym (ne→== (length (contents fs n)) (4096 - page_offset buf) ne)),
            )
      ]
