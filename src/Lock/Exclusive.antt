-- ===== src/Lock/Exclusive.antt =====
-- Mutual exclusion: whatever the harts do, in whatever order.
use servos.Prelude.{
  ℕ, ◌+◌, ◌≤◌, ◌<◌, ◌≡◌, ◌≢◌, refl, ap, sym, ◌∙◌, Bool, true, false, List, ◌==◌, if◌then◌else◌,
  arith, inl, inr, eq-or-ne,
}
use servos.Lock.{
  Held, guard, token, Words, store, unlock, remove, Hart, put, Move, lock_call, lock_win, lock_miss,
  spin, spin_out, try_call, try_win, try_miss, drop_guard, drop_rest, keep_token, forget_guard,
  drop_kept, forget_token, enable, ask, locked, drop_token, disable_intr, enable_intr, Harts, moves,
  IsFresh, Reach, start, later,
}
use servos.Lock.Laws.{count, count-remove, count-set, store_self, store_other, put_self, put_other}

abbrev at : ℕ → ℕ → ℕ
at l l' = if l == l' then 1 else 0

-- What a move does to the words and to what its hart holds.
data Effect (w : Words) (xs : List Held) (w' : Words) (ys : List Held) : Type 0 where
  fewer : ((l : ℕ) → w' l ≡ w l) → ((l : ℕ) → count l ys ≤ count l xs) → Effect w xs w' ys
  took :
      (l : ℕ)
      → w l ≡ false
      → ((l' : ℕ) → w' l' ≡ store l true w l')
      → ((l' : ℕ) → count l' ys ≡ count l' xs + at l l')
      → Effect w xs w' ys
  gave :
      (l : ℕ)
      → ((l' : ℕ) → w' l' ≡ store l false w l')
      → ((l' : ℕ) → count l' ys + at l l' ≡ count l' xs)
      → Effect w xs w' ys

drop_token-held : (t : Bool) (h : Hart) → (drop_token t h).held ≡ h.held
unfolding drop_token
drop_token-held true h = refl
drop_token-held false h = refl

same : (w : Words) (h : Hart) (xs : List Held) → h.held ≡ xs → Effect w xs w h.held
same w h xs e = fewer (λ l. refl) (λ l. omega (arith, ap (count l) e))

Move-Effect : {w w' : Words} {h h' : Hart} → Move w h w' h' → Effect w h.held w' h'.held
unfolding ask disable_intr enable_intr locked unlock
Move-Effect {w} {w'} {h} {h'} (lock_call l p) = same w h' h.held refl
Move-Effect {h} (lock_win l t p f) = took l f (λ l'. refl) (λ l'. omega arith)
Move-Effect {w} {w'} {h} {h'} (lock_miss l t p) = same w h' h.held refl
Move-Effect {w} {w'} {h} {h'} (spin l t p f) = same w h' h.held refl
Move-Effect {w} {w'} {h} {h'} (spin_out l t p f) = same w h' h.held refl
Move-Effect {w} {w'} {h} {h'} (try_call l p) = same w h' h.held refl
Move-Effect {h} (try_win l t p f) = took l f (λ l'. refl) (λ l'. omega arith)
Move-Effect {w} {w'} {h} {h'} (try_miss l t p f) = same w h' h.held (drop_token-held t _)
Move-Effect {h} (drop_guard i l t p g) =
    gave l (λ l'. refl) (λ l'. count-remove l' h.held i (guard l t) g)
Move-Effect {w} {w'} {h} {h'} (drop_rest t p) = same w h' h.held (drop_token-held t _)
Move-Effect {h} (keep_token i l t p g) =
    gave l (λ l'. refl) (λ l'. omega (arith, count-set l' h.held i (guard l t) (token t) g))
Move-Effect {h} (forget_guard i l t p g) =
    fewer (λ l'. refl) (λ l'. omega (arith, count-set l' h.held i (guard l t) (token t) g))
Move-Effect {w} {w'} {h} {h'} (drop_kept i t p g) =
    fewer (λ l'. refl)
      (λ l'. omega (
        arith,
        ap (count l') (drop_token-held t (record h { held = remove i h.held })),
        count-remove l' h.held i (token t) g,
      ))
Move-Effect {h} (forget_token i t p g) =
    fewer (λ l'. refl) (λ l'. omega (arith, count-remove l' h.held i (token t) g))
Move-Effect {w} {w'} {h} {h'} (enable p) = same w h' h.held refl

-- Each lock has one guard at most, on one hart, and is locked as long as there is one; `c` counts the
-- guards that a hart holds of a lock.
pub record IsExclusive (c : ℕ → ℕ → ℕ) (w : Words) : Type 0 where
  pub once : (i l : ℕ) → c i l ≤ 1
  pub alone : (i j l : ℕ) → 0 < c i l → 0 < c j l → i ≡ j
  pub covered : (i l : ℕ) → 0 < c i l → w l ≡ true

module _ (c c' : ℕ → ℕ → ℕ) (w w' : Words) (inv : IsExclusive c w) where
  fewer-IsExclusive : ((l : ℕ) → w' l ≡ w l) → ((j l : ℕ) → c' j l ≤ c j l) → IsExclusive c' w'
  fewer-IsExclusive words less = record {
    once = λ j l. omega (arith, less j l, inv.once j l);
    alone = λ j k l p q. inv.alone j k l (omega (arith, less j l, p)) (omega (arith, less k l, q));
    covered = λ j l p. words l ∙ inv.covered j l (omega (arith, less j l, p));
  }

  -- a lock that is free has no guard
  no_guard : (l : ℕ) → w l ≡ false → (j : ℕ) → c j l ≡ 0
  no_guard l f j = elim (eq-or-ne (c j l) 0) [
    | inl e ↦ e
    | inr ne ↦ let locked_word = inv.covered j l (omega arith) in cc
  ]

  took-IsExclusive :
      (i l : ℕ)
      → w l ≡ false
      → ((l' : ℕ) → w' l' ≡ store l true w l')
      → ((l' : ℕ) → c' i l' ≡ c i l' + at l l')
      → ((j l' : ℕ) → i ≢ j → c' j l' ≡ c j l')
      → IsExclusive c' w'
  took-IsExclusive i l f words here there = record {
    once = λ j l'. elim (eq-or-ne i j) [
      | inl e ↦ rw (← e) (first l')
      | inr ne ↦ omega (arith, there j l' ne, inv.once j l')
    ];
    alone = λ j k l' p q. elim (eq-or-ne l l') [
      | inl e ↦ sym (only j l' e p) ∙ only k l' e q
      | inr ne ↦ inv.alone j k l' (before j l' ne p) (before k l' ne q)
    ];
    covered = λ j l' p. elim (eq-or-ne l l') [
      | inl e ↦ words l' ∙ rw (← e) (store_self l true w)
      | inr ne ↦ words l' ∙ (store_other l l' true w ne ∙ inv.covered j l' (before j l' ne p))
    ];
  }
    where
      first : (l' : ℕ) → c' i l' ≤ 1
      first l' = elim (eq-or-ne l l') [
        | inl e ↦ ground (arith, here l', no_guard l f i)
        | inr ne ↦ ground (arith, here l', inv.once i l')
      ]

      only : (j l' : ℕ) → l ≡ l' → 0 < c' j l' → i ≡ j
      only j l' e p = elim (eq-or-ne i j) [
        | inl same_hart ↦ same_hart
        | inr ne ↦
            let none_here : c j l' ≡ 0 = rw (← e) (no_guard l f j) in
            absurd (omega (arith, there j l' ne))
      ]

      before : (j l' : ℕ) → l ≢ l' → 0 < c' j l' → 0 < c j l'
      before j l' ne p = elim (eq-or-ne i j) [
        | inl e ↦ rw (← e) (let q : 0 < c' i l' = rw e p in ground (arith, here l'))
        | inr other ↦ omega (arith, there j l' other)
      ]

  gave-IsExclusive :
      (i l : ℕ)
      → ((l' : ℕ) → w' l' ≡ store l false w l')
      → ((l' : ℕ) → c' i l' + at l l' ≡ c i l')
      → ((j l' : ℕ) → i ≢ j → c' j l' ≡ c j l')
      → IsExclusive c' w'
  gave-IsExclusive i l words here there = record {
    once = λ j l'. omega (arith, less j l', inv.once j l');
    alone = λ j k l' p q. inv.alone j k l' (omega (arith, less j l')) (omega (arith, less k l'));
    covered = λ j l' p. elim (eq-or-ne l l') [
      | inl e ↦ absurd (gone j l' e p)
      | inr ne ↦
          words l' ∙ (store_other l l' false w ne ∙ inv.covered j l' (omega (arith, less j l')))
    ];
  }
    where
      less : (j l' : ℕ) → c' j l' ≤ c j l'
      less j l' = elim (eq-or-ne i j) [
        | inl e ↦ rw (← e) (omega (arith, here l'))
        | inr ne ↦ omega (arith, there j l' ne)
      ]

      gone : (j l' : ℕ) → l ≡ l' → ¬ (0 < c' j l')
      gone j l' e p =
          let mine : c' i l + 1 ≡ c i l = ground (arith, here l) in
          elim (eq-or-ne i j) [
            | inl same_hart ↦
                let q : 0 < c' i l = rw (e, same_hart) p in omega (arith, inv.once i l)
            | inr ne ↦
                let q : 0 < c j l = rw e (omega (arith, less j l')) in
                ne (inv.alone i j l (omega arith) q)
          ]

-- the guards of a lock that a hart holds
abbrev pub guards : Harts → ℕ → ℕ → ℕ
guards s i l = count l (s.harts i).held

put-count :
    (i : ℕ) (h : Hart) (f : ℕ → Hart) (j l : ℕ)
    → i ≢ j
    → count l (put i h f j).held ≡ count l (f j).held
put-count i h f j l ne = ap (λ (x : Hart). count l x.held) (put_other i j h f ne)

put-count_self :
    (i : ℕ) (h : Hart) (f : ℕ → Hart) (l : ℕ) → count l (put i h f i).held ≡ count l h.held
put-count_self i h f l = ap (λ (x : Hart). count l x.held) (put_self i h f)

Effect-IsExclusive :
    (s : Harts) (i : ℕ) (w : Words) (h : Hart)
    → IsExclusive (guards s) s.words
    → Effect s.words (s.harts i).held w h.held
    → IsExclusive (guards (record { words = w; harts = put i h s.harts })) w
Effect-IsExclusive s i w h inv (fewer words less) =
    fewer-IsExclusive (guards s) (λ j l. count l (put i h s.harts j).held) s.words w inv words
      (λ j l. elim (eq-or-ne i j) [
        | inl e ↦ rw (← e) (omega (arith, put-count_self i h s.harts l, less l))
        | inr ne ↦ omega (arith, put-count i h s.harts j l ne)
      ])
Effect-IsExclusive s i w h inv (took l f words more) =
    took-IsExclusive (guards s) (λ j l. count l (put i h s.harts j).held) s.words w inv i l f words
      (λ l'. put-count_self i h s.harts l' ∙ more l') (λ j l' ne. put-count i h s.harts j l' ne)
Effect-IsExclusive s i w h inv (gave l words less) =
    gave-IsExclusive (guards s) (λ j l. count l (put i h s.harts j).held) s.words w inv i l words
      (λ l'. ap (λ n. n + at l l') (put-count_self i h s.harts l') ∙ less l')
      (λ j l' ne. put-count i h s.harts j l' ne)

IsFresh-IsExclusive : (s : Harts) → IsFresh s → IsExclusive (guards s) s.words
IsFresh-IsExclusive s f = record {
  once = λ i l. omega (arith, nothing i l);
  alone = λ i j l p q. absurd (omega (arith, nothing i l));
  covered = λ i l p. absurd (omega (arith, nothing i l));
}
  where
    nothing : (i l : ℕ) → count l (s.harts i).held ≡ 0
    nothing i l = ap (count l) (f.empty i)

-- Whatever the harts do from a start at which no lock is locked, each lock has one guard at most at
-- any time, on one hart, and its word says locked as long as there is one.
pub Reach-IsExclusive : (s t : Harts) → IsFresh s → Reach s t → IsExclusive (guards t) t.words
Reach-IsExclusive s t f start = IsFresh-IsExclusive s f
Reach-IsExclusive s t f (later {t = u} r (moves i {w} {h} m)) =
    Effect-IsExclusive u i w h (Reach-IsExclusive s u f r) (Move-Effect m)
