-- ===== src/Fs/InitRd/Open.antt =====
-- `InitRd::open`: walking the components of a path.
use servos.Prelude.{
  ℕ, ◌≡◌, inl, inr, refl, ap, ap₂, sym, ◌∙◌, true, false, Option, none, some, List, [], ◌∷◌, ◌++◌,
  get_elem?, if◌then◌else◌, ◌==◌, Option-cases, arith,
}
use servos.Fs.Result.{FsResult, ok, err, panic, VNode, ◌>>=◌}
use servos.Fs.Path.{Bytes, components, names, is_absolute}
use servos.Fs.Path.Split.{names-join}
use servos.Fs.InitRd.{InitRd, INode, inode_dir, walk, enter_dir, vnode, first_ino, open_path}

pub bind_assoc :
    {A B C : Type 0} (m : FsResult A) (f : A → FsResult B) (g : B → FsResult C)
    → ((m >>= f) >>= g) ≡ (m >>= λ a. f a >>= g)
bind_assoc (ok a) f g = refl
bind_assoc (err e) f g = refl
bind_assoc panic f g = refl

pub bind_ext :
    {A B : Type 0} (m : FsResult A) {f g : A → FsResult B}
    → ((a : A) → f a ≡ g a)
    → (m >>= f) ≡ (m >>= g)
bind_ext (ok a) h = h a
bind_ext (err e) h = refl
bind_ext panic h = refl

walk-append :
    (fs : InitRd) (i : ℕ) (xs ys : List Bytes)
    → walk fs i (xs ++ ys) ≡ (walk fs i xs >>= λ j. walk fs j ys)
unfolding walk
walk-append fs i [] ys = refl
walk-append fs i (x ∷ xs) ys =
    bind_ext (enter_dir fs i x) (λ j. walk-append fs j xs ys)
    ∙ sym (bind_assoc (enter_dir fs i x) (λ j. walk fs j xs) (λ j. walk fs j ys))

vnode-none : (fs : InitRd) (j : ℕ) → get_elem? fs.inodes j ≡ none → vnode fs j ≡ panic
unfolding vnode
vnode-none fs j e = ground arith

pub vnode-some :
    (fs : InitRd) (j : ℕ) (n : INode)
    → get_elem? fs.inodes j ≡ some n
    → vnode fs j ≡ ok record { ino = j; directory = n.typ == inode_dir; readonly = true }
unfolding vnode
vnode-some fs j n e = ground arith

enter_dir-none :
    (fs : InitRd) (j : ℕ) (name : Bytes)
    → get_elem? fs.inodes j ≡ none
    → enter_dir fs j name ≡ panic
unfolding enter_dir
enter_dir-none fs j name e = ground arith

walk-none :
    (fs : InitRd) (j : ℕ) (ys : List Bytes)
    → get_elem? fs.inodes j ≡ none
    → (walk fs j ys >>= λ k. vnode fs k) ≡ panic
unfolding walk
walk-none fs j [] e = vnode-none fs j e
walk-none fs j (y ∷ ys) e =
    ap (λ r. (r >>= λ next. walk fs next ys) >>= λ k. vnode fs k) (enter_dir-none fs j y e)

-- Walking on from an inode that is not there panics, as does asking for its vnode.
vnode-walk :
    (fs : InitRd) (j : ℕ) (ys : List Bytes)
    → (vnode fs j >>= λ vn. walk fs vn.ino ys >>= λ k. vnode fs k)
      ≡ (walk fs j ys >>= λ k. vnode fs k)
vnode-walk fs j ys = elim (Option-cases (get_elem? fs.inodes j)) [
  | inl e ↦
      ap (λ v. v >>= λ vn. walk fs vn.ino ys >>= λ k. vnode fs k) (vnode-none fs j e)
      ∙ sym (walk-none fs j ys e)
  | inr (n, e) ↦ ap (λ v. v >>= λ vn. walk fs vn.ino ys >>= λ k. vnode fs k) (vnode-some fs j n e)
]

relative_ino : (q : Bytes) (vn : VNode) → is_absolute q ≡ false → first_ino q (some vn) ≡ vn.ino
unfolding first_ino
relative_ino q vn h = ap (λ b. if b then 0 else vn.ino) h

first_ino-append :
    (c : ℕ) (cs b : Bytes) (root : Option VNode)
    → first_ino ((c ∷ cs) ++ b) root ≡ first_ino (c ∷ cs) root
unfolding first_ino is_absolute
first_ino-append c cs b none = refl
first_ino-append c cs b (some r) = refl

-- Opening `p/q`, where `p` is not empty and `q` is relative, is opening `p` and then `q` from the
-- vnode of `p`: the same vnode, the same error or a panic in both.
pub open_path-join :
    (fs : InitRd) (c : ℕ) (cs q : Bytes) (root : Option VNode)
    → is_absolute q ≡ false
    → open_path fs ((c ∷ cs) ++ (b'/' ∷ q)) root
      ≡ (open_path fs (c ∷ cs) root >>= λ vn. open_path fs q (some vn))
unfolding open_path
open_path-join fs c cs q root h =
    let i = first_ino (c ∷ cs) root in
    let xs = names (components (c ∷ cs)) in
    let ys = names (components q) in
    ap (λ (k, l). walk fs k l >>= λ j. vnode fs j)
      (ap₂ (λ k l. (k, l)) (first_ino-append c cs (b'/' ∷ q) root) (names-join (c ∷ cs) q))
    ∙ (ap (λ r. r >>= λ j. vnode fs j) (walk-append fs i xs ys)
        ∙ (bind_assoc (walk fs i xs) (λ j. walk fs j ys) (λ j. vnode fs j)
            ∙ (sym (bind_ext (walk fs i xs) (λ j. vnode-walk fs j ys))
                ∙ (sym (
                      bind_assoc (walk fs i xs) (λ j. vnode fs j)
                        (λ vn. walk fs vn.ino ys >>= λ k. vnode fs k))
                    ∙ bind_ext (walk fs i xs >>= λ j. vnode fs j) (λ vn.
                      ap (λ k. walk fs k ys >>= λ j. vnode fs j) (sym (relative_ino q vn h)))))))
