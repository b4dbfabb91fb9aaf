-- ===== src/Sys/Load/Program/Stack.antt =====
-- Where the stack pointer of a new process stands.
use servos.Prelude.{
  ℕ, suc, ◌+◌, ◌-◌, ◌*◌, ◌≤◌, ◌≡◌, refl, ap, none, List, [], ◌∷◌, length, ltb, if◌then◌else◌,
  Bool-cases, inl, inr, arith,
}
use servos.Vmm.Memory.{Memory}
use servos.Vmm.Copy.{copy_to}
use servos.Fs.Path.{Bytes}
use servos.Fs.InitRd.Load.Le.{to_le_bytes}
use servos.Sys.Code.{SysResult, ok, err, panic, stops, bad_addr}
use servos.Sys.User.{◌>>=◌}
use servos.Sys.Load.Program.{checked, push_args, push_ptrs}

-- If the call succeeds, its value has the property.
abbrev pub Ends {ℓ} : {A S : Type 0} → (A → Type ℓ) → SysResult A × S → Type ℓ
Ends P (ok a, s) = P a
Ends P (err e, s) = Unit
Ends P (panic, s) = Unit
Ends P (stops n, s) = Unit

pub bind-Ends :
    {S A B : Type 0} (P : A → Type 0) (Q : B → Type 0) (x : SysResult A × S)
    (f : A → S → SysResult B × S)
    → Ends P x
    → ((a : A) (s : S) → P a → Ends Q (f a s))
    → Ends Q (x >>= f)
bind-Ends P Q (ok a, s) f h g = g a s h
bind-Ends P Q (err e, s) f h g = tt
bind-Ends P Q (panic, s) f h g = tt
bind-Ends P Q (stops n, s) f h g = tt

pub then-Ends :
    {S A B : Type 0} (Q : B → Type 0) (x : SysResult A × S) (f : A → S → SysResult B × S)
    → ((a : A) (s : S) → Ends Q (f a s))
    → Ends Q (x >>= f)
then-Ends Q (ok a, s) f g = g a s
then-Ends Q (err e, s) f g = tt
then-Ends Q (panic, s) f g = tt
then-Ends Q (stops n, s) f g = tt

-- a panic when the stack pointer would fall below 0
guarded-Ends :
    {A : Type 0} (Q : A → Type 0) (sp n : ℕ) (m : Memory) (x : SysResult A × Memory)
    → (n ≤ sp → Ends Q x)
    → Ends Q (if ltb sp n then (panic, m) else x)
guarded-Ends Q sp n m x h = elim (Bool-cases (ltb sp n)) [
  | inl e ↦ rw e tt
  | inr e ↦ rw e (h (ground arith))
]

-- the bytes of the strings, each with a zero behind it
abbrev pub total : List Bytes → ℕ
total [] = 0
total (arg ∷ args) = length arg + 1 + total args

pub push_args-Ends :
    (pt : ℕ) (args : List Bytes) (sp : ℕ) (m : Memory)
    → Ends (λ r. (r.1 + total args ≡ sp) × (length r.0 ≡ length args)) (push_args pt args sp m)
unfolding push_args
push_args-Ends pt [] sp m = (omega arith, refl)
push_args-Ends pt (arg ∷ args) sp m =
    let below : ℕ = sp - (length arg + 1) in
    guarded-Ends _ sp (length arg + 1) m _ (λ fits.
      then-Ends _ (checked bad_addr (copy_to pt below arg none m) m) _ (λ u m1.
        bind-Ends (λ r. (r.1 + total args ≡ below) × (length r.0 ≡ length args)) _
          (push_args pt args below m1) _ (push_args-Ends pt args below m1)
          (λ r m2 h. (omega (arith, h.0), ap suc h.1))))

pub Ends-map :
    {S A : Type 0} (P Q : A → Type 0) (x : SysResult A × S)
    → ((a : A) → P a → Q a)
    → Ends P x
    → Ends Q x
Ends-map P Q (ok a, s) f h = f a h
Ends-map P Q (err e, s) f h = tt
Ends-map P Q (panic, s) f h = tt
Ends-map P Q (stops n, s) f h = tt

pub push_ptrs-Ends :
    (pt : ℕ) (ptrs : List ℕ) (sp : ℕ) (m : Memory)
    → Ends (λ s. s + 8 * length ptrs ≡ sp) (push_ptrs pt ptrs sp m)
unfolding push_ptrs
push_ptrs-Ends pt [] sp m = omega arith
push_ptrs-Ends pt (ptr ∷ ptrs) sp m =
    let below : ℕ = sp - 8 in
    guarded-Ends _ sp 8 m _ (λ fits.
      then-Ends _ (checked bad_addr (copy_to pt below (to_le_bytes 8 ptr) none m) m) _ (λ u m1.
        Ends-map (λ s. s + 8 * length ptrs ≡ below) (λ s. s + 8 * suc (length ptrs) ≡ sp)
          (push_ptrs pt ptrs below m1) (λ s h. omega (arith, h)) (push_ptrs-Ends pt ptrs below m1)))
