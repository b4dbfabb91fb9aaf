-- ===== src/Lock/Handover.antt =====
-- How Scheduler::try_find_execute of kernel/src/proc.rs uses the locks when it finds a process that it
-- can run: try_lock of the scheduler, lock of the process in ProcessNode::with, and then the drop of
-- the scheduler's guard, the older of the two.
use servos.Prelude.{
  ℕ, ◌≡◌, ◌≢◌, inl, inr, refl, ap, sym, ◌∙◌, subst, Bool, true, false, Option, none, some, List, [],
  ◌∷◌, get_elem?, if◌then◌else◌, Bool-cases,
}
use servos.Lock.{
  Held, guard, token, Words, store, unlock, remove, Hart, Pc, running, attempt, spinning, trying,
  releasing, Move, lock_call, lock_win, try_call, try_win, drop_guard, drop_rest, ask, locked,
  drop_token, disable_intr, enable_intr,
}
use servos.Lock.Laws.{store_self, store_other}

-- The moves of a hart that finds its locks free: the entry of try_lock and of lock, the success of
-- their compare-exchange, the first part of the drop of a guard that it holds, and the second.
pub data Action : Type 0 where
  asks_try asks_lock : ℕ → Action
  wins : Action
  drops : ℕ → Action
  drops_rest : Action

-- a lock that is taken
unfoldable pub win : ℕ → Bool → Words → Hart → Option (Words × Hart)
win l t w h = if w l then none else some (store l true w, locked l t h)

unfoldable pub give : ℕ → Option Held → Words → Hart → Option (Words × Hart)
give i none w h = none
give i (some (token t)) w h = none
give i (some (guard l t)) w h =
    some (unlock l w, record h { pc = releasing t; held = remove i h.held })

-- an action at a place in the program; `none` when the hart is not where it can act
unfoldable pub act_at : Pc → Action → Words → Hart → Option (Words × Hart)
act_at running (asks_try l) w h = some (w, ask trying l h)
act_at running (asks_lock l) w h = some (w, ask attempt l h)
act_at running (drops i) w h = give i (get_elem? h.held i) w h
act_at (attempt l t) wins w h = win l t w h
act_at (trying l t) wins w h = win l t w h
act_at (releasing t) drops_rest w h = some (w, drop_token t (record h { pc = running }))
act_at pc a w h = none

unfoldable pub act : Action → Words → Hart → Option (Words × Hart)
act a w h = act_at h.pc a w h

unfoldable pub act_all : List Action → Words → Hart → Option (Words × Hart)
act_all [] w h = some (w, h)
act_all (a ∷ actions) w h = elim (act a w h) [ none ↦ none | some (w', h') ↦ act_all actions w' h' ]

-- Scheduler::try_find_execute, on the locks
unfoldable pub handover : ℕ → ℕ → List Action
handover sched proc = asks_try sched ∷ wins ∷ asks_lock proc ∷ wins ∷ drops 1 ∷ drops_rest ∷ []

-- Each action is a move of the model of the locks.
pub data Moves (w : Words) (h : Hart) : Option (Words × Hart) → Type 0 where
  stuck : Moves w h none
  moved : {w' : Words} {h' : Hart} → Move w h w' h' → Moves w h (some (w', h'))

pub act-Moves : (a : Action) (w : Words) (h : Hart) → Moves w h (act a w h)
unfolding act act_at give win
act-Moves a w h = go h.pc refl a
  where
    taken : ℕ → Bool → Bool → Option (Words × Hart)
    taken l t b = if b then none else some (store l true w, locked l t h)

    won :
        (l : ℕ) (t : Bool)
        → (w l ≡ false → Move w h (store l true w) (locked l t h))
        → Moves w h (win l t w h)
    won l t f = elim (Bool-cases (w l)) [
      | inl e ↦ subst (Moves w h) (sym (ap (λ b. taken l t b) e)) stuck
      | inr e ↦ subst (Moves w h) (sym (ap (λ b. taken l t b) e)) (moved (f e))
    ]

    gave :
        (i : ℕ) (x : Option Held)
        → h.pc ≡ running
        → get_elem? h.held i ≡ x
        → Moves w h (give i x w h)
    gave i none p e = stuck
    gave i (some (token t)) p e = stuck
    gave i (some (guard l t)) p e = moved (drop_guard i l t p e)

    go : (pc : Pc) → h.pc ≡ pc → (b : Action) → Moves w h (act_at pc b w h)
    go running p (asks_try l) = moved (try_call l p)
    go running p (asks_lock l) = moved (lock_call l p)
    go running p (drops i) = gave i (get_elem? h.held i) p refl
    go running p wins = stuck
    go running p drops_rest = stuck
    go (attempt l t) p wins = won l t (lock_win l t p)
    go (attempt l t) p (asks_try l') = stuck
    go (attempt l t) p (asks_lock l') = stuck
    go (attempt l t) p (drops i) = stuck
    go (attempt l t) p drops_rest = stuck
    go (trying l t) p wins = won l t (try_win l t p)
    go (trying l t) p (asks_try l') = stuck
    go (trying l t) p (asks_lock l') = stuck
    go (trying l t) p (drops i) = stuck
    go (trying l t) p drops_rest = stuck
    go (releasing t) p drops_rest = moved (drop_rest t p)
    go (releasing t) p (asks_try l) = stuck
    go (releasing t) p (asks_lock l) = stuck
    go (releasing t) p (drops i) = stuck
    go (releasing t) p wins = stuck
    go (spinning l t) p b = stuck

-- a list of actions whose first one can be made
first :
    (a : Action) (actions : List Action) (w : Words) (h : Hart) {w' : Words} {h' : Hart}
    → act a w h ≡ some (w', h')
    → act_all (a ∷ actions) w h ≡ act_all actions w' h'
unfolding act_all
first a actions w h e = ap (λ o. elim o [ none ↦ none | some (w', h') ↦ act_all actions w' h' ]) e

drop_token-sie : (t : Bool) (h : Hart) → h.sie ≡ false → (drop_token t h).sie ≡ t
unfolding drop_token enable_intr
drop_token-sie true h e = refl
drop_token-sie false h e = e

drop_token-held : (t : Bool) (h : Hart) → (drop_token t h).held ≡ h.held
unfolding drop_token enable_intr
drop_token-held true h = refl
drop_token-held false h = refl

-- A hart outside the lock's code that finds the locks of the scheduler and of a process free, and that
-- takes the first by try_lock, then the second by lock, and then drops the guard of the first, can
-- make each of these moves. At the end the scheduler's lock is free and the process's is locked, the
-- hart holds the guard of the process and what it held at the start, and interrupts are as they were
-- at the start, so that they are on if they were.
pub handover-sie :
    (sched proc : ℕ) (w : Words) (h : Hart)
    → sched ≢ proc
    → w sched ≡ false
    → w proc ≡ false
    → h.pc ≡ running
    → (w' : Words) × (h' : Hart) × (act_all (handover sched proc) w h ≡ some (w', h'))
      × (h'.held ≡ guard proc false ∷ h.held)
      × (w' sched ≡ false)
      × (w' proc ≡ true)
      × (h'.sie ≡ h.sie)
unfolding act_all handover act act_at win give ask disable_intr locked remove unlock
handover-sie sched proc w h ne f g p =
    let w₁ = store sched true w in
    let w₂ = store proc true w₁ in
    let later = asks_lock proc ∷ wins ∷ drops 1 ∷ drops_rest ∷ [] in
    let asked = ask trying sched h in
    let waits = ask attempt proc (locked sched h.sie asked) in
    let left = record h { sie = false; pc = running; held = guard proc false ∷ h.held } in
    (
      unlock sched w₂,
      drop_token h.sie left,
      first (asks_try sched) (wins ∷ later) w h (ap (λ pc. act_at pc (asks_try sched) w h) p)
          ∙ (first wins later w asked
                (ap (λ b. if b then none else some (w₁, locked sched h.sie asked)) f)
              ∙ first wins (drops 1 ∷ drops_rest ∷ []) w₁ waits (
                  ap (λ b. if b then none else some (w₂, locked proc false waits))
                    (store_other sched proc true w ne ∙ g))),
      drop_token-held h.sie left,
      store_self sched false w₂,
      store_other sched proc false w₂ ne ∙ store_self proc true w₁,
      drop_token-sie h.sie left refl,
    )
