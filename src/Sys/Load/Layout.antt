-- ===== src/Sys/Load/Layout.antt =====
-- The stack of a process that was loaded.
use servos.Prelude.{
  ℕ, ◌+◌, ◌*◌, ◌/◌, ◌%◌, ◌≤◌, ◌<◌, ◌≡◌, refl, subst, ap, ◌∙◌, Option, none, some, List, [], ◌∷◌,
  length, length-append, reverse, arith,
}
use mathlib.Core.List.{reverse-append}
use servos.Vmm.Memory.{Memory, try_alloc}
use servos.Fs.Path.{Bytes}
use servos.Fs.Fd.{Fd}
use servos.Elf.{ElfFile}
use servos.Proc.{Kernel}
use servos.Sys.Code.{SysResult, ok, err, panic, stops, no_memory}
use servos.Sys.User.{Platform, Loaded, with_capacity}
use servos.Sys.Load.{on_memory, owning, read_program, map_trap_frame, fill, load_process}
use servos.Sys.Load.Program.{load_segments, map_stack, push_args, push_ptrs, stack_top}
use servos.Sys.Load.Program.Stack.{
  Ends, bind-Ends, then-Ends, total, push_args-Ends, push_ptrs-Ends,
}

-- Below the strings stand the pointers to them, from an address that is a multiple of 8.
abbrev pub HasStack : List Bytes → Loaded → Type 0
HasStack args l =
    (l.sp % 8 ≡ 0)
    × (l.sp + 8 * length args + total args ≤ stack_top)
    × (stack_top < l.sp + 8 * length args + total args + 8)

length-reverse : (xs : List ℕ) → length (reverse xs) ≡ length xs
length-reverse [] = refl
length-reverse (x ∷ xs) =
    ap length (reverse-append (x ∷ []) xs)
    ∙ (length-append (reverse xs) (x ∷ []) ∙ omega (arith, length-reverse xs))

on_memory-Ends :
    {A : Type 0} (P : A → Type 0) (f : Memory → SysResult A × Memory) (k : Kernel)
    → Ends P (f k.memory)
    → Ends P (on_memory f k)
on_memory-Ends {A} P f k h = from (f k.memory) h
  where
    from : (x : SysResult A × Memory) → Ends P x → Ends P (x.0, record k { memory = x.1 })
    from (ok a, m) h = h
    from (err e, m) h = tt
    from (panic, m) h = tt
    from (stops n, m) h = tt

owning-Ends :
    {A : Type 0} (P : A → Type 0) (pt : ℕ) (x : SysResult A × Kernel)
    → Ends P x
    → Ends P (owning pt x)
owning-Ends P pt (ok a, k) h = h
owning-Ends P pt (err e, k) h = tt
owning-Ends P pt (panic, k) h = tt
owning-Ends P pt (stops n, k) h = tt

-- the stack pointer behind the two loops
pushed-HasStack :
    (args : List Bytes) (ptrs : List ℕ) (top sp : ℕ)
    → top + total args ≡ stack_top
    → length ptrs ≡ length args
    → sp + 8 * length (reverse ptrs) ≡ top / 8 * 8
    → (sp % 8 ≡ 0)
      × (sp + 8 * length args + total args ≤ stack_top)
      × (stack_top < sp + 8 * length args + total args + 8)
pushed-HasStack args ptrs top sp h g e = (
  omega (arith, length-reverse ptrs),
  omega (arith, length-reverse ptrs),
  omega (arith, length-reverse ptrs),
)

module _ (sys : Platform) where
  fill-Ends :
      (pt : ℕ) (file : ElfFile) (args : List Bytes) (k : Kernel)
      → Ends (HasStack args) (fill sys pt file args k)
  unfolding fill
  fill-Ends pt file args k = then-Ends _ (on_memory (map_trap_frame sys pt) k) _ (λ u k1.
      then-Ends _ (on_memory (load_segments pt file.raw file.pheaders 0) k1) _ (λ va k2.
        then-Ends _ (on_memory (map_stack pt) k2) _ (λ v k3.
          then-Ends _ (with_capacity (length args * 8) k3) _ (λ w k4.
            bind-Ends (λ r. (r.1 + total args ≡ stack_top) × (length r.0 ≡ length args)) _
              (on_memory (push_args pt args stack_top) k4) _
              (on_memory-Ends _ (push_args pt args stack_top) k4
                (push_args-Ends pt args stack_top k4.memory))
              (λ r k5 h.
                bind-Ends (λ s. s + 8 * length (reverse r.0) ≡ r.1 / 8 * 8) (HasStack args)
                  (on_memory (push_ptrs pt (reverse r.0) (r.1 / 8 * 8)) k5) _
                  (on_memory-Ends _ (push_ptrs pt (reverse r.0) (r.1 / 8 * 8)) k5
                    (push_ptrs-Ends pt (reverse r.0) (r.1 / 8 * 8) k5.memory))
                  (λ sp k6 e. pushed-HasStack args r.0 r.1 sp h.0 h.1 e))))))

  filled-Ends :
      (o : Option (ℕ × Memory)) (file : ElfFile) (args : List Bytes) (k : Kernel)
      → Ends (HasStack args) (elim o as (λ u. SysResult Loaded × Kernel) [
        | none ↦ (err no_memory, k)
        | some (pt, m) ↦ owning pt (fill sys pt file args (record k { memory = m }))
      ])
  filled-Ends none file args k = tt
  filled-Ends (some (pt, m)) file args k =
      let k1 : Kernel = record k { memory = m } in
      owning-Ends (HasStack args) pt (fill sys pt file args k1) (fill-Ends pt file args k1)

  load_process-Ends :
      (path : Bytes) (cwd : Fd) (args : List Bytes) (k : Kernel)
      → Ends (HasStack (path ∷ args)) (load_process sys path cwd args k)
  unfolding load_process
  load_process-Ends path cwd args k =
      then-Ends (HasStack (path ∷ args)) (read_program sys path cwd k) _
        (λ file k1. filled-Ends (try_alloc k1.memory) file (path ∷ args) k1)

  -- A program that is loaded starts with a stack pointer that is a multiple of 8. Above it there is
  -- room for a pointer to the path and to each argument, then for these strings with a zero behind
  -- each, and then, up to the top of the stack, fewer than 8 bytes.
  pub load_process-HasStack :
      (path : Bytes) (cwd : Fd) (args : List Bytes) (k k' : Kernel) (l : Loaded)
      → load_process sys path cwd args k ≡ (ok l, k')
      → HasStack (path ∷ args) l
  load_process-HasStack path cwd args k k' l h =
      subst (Ends (HasStack (path ∷ args))) h (load_process-Ends path cwd args k)
