-- ===== src/Lock/Tests.antt =====
-- Two harts and two locks.
use servos.Prelude.{◌≡◌, refl, true, false, some, [], ◌∷◌, arith}
use servos.Lock.{
  guard, Words, Hart, running, Move, lock_call, lock_win, drop_guard, drop_rest, Harts, moves,
  IsFresh, Reach, start, later, ask, locked, attempt, put, store, disable_intr, unlock, remove,
  drop_token, releasing,
}
use servos.Lock.Exclusive.{IsExclusive, guards, Reach-IsExclusive}
use servos.Lock.Nested.{Orderly, is_idle, Orderly-sie}
use servos.Lock.Nested as Nested
use servos.Lock.Handover.{act_all, handover, handover-sie}

abbrev hart : Hart
hart = record { sie = true; pc = running; held = [] }

abbrev free_words : Words
free_words l = false

abbrev boot : Harts
boot = record { words = free_words; harts = λ i. hart }

boot-IsFresh : IsFresh boot
boot-IsFresh = record { unlocked = λ l. refl; outside = λ i. refl; empty = λ i. refl }

-- hart 1 takes lock 4
abbrev asking : Hart
asking = record { sie = false; pc = attempt 4 true; held = [] }

abbrev holding : Hart
holding = record { sie = false; pc = running; held = guard 4 true ∷ [] }

abbrev after_ask : Harts
after_ask = record { words = free_words; harts = put 1 asking boot.harts }

abbrev after_lock : Harts
after_lock = record { words = store 4 true free_words; harts = put 1 holding after_ask.harts }

asks : Move free_words hart free_words asking
unfolding ask disable_intr
asks = lock_call 4 refl

wins : Move free_words asking (store 4 true free_words) holding
unfolding locked
wins = lock_win 4 true refl refl

Reach-after_lock : Reach boot after_lock
unfolding put
Reach-after_lock = later (later start (moves 1 asks)) (moves 1 wins)

Reach-IsExclusive_example : IsExclusive (guards after_lock) after_lock.words
Reach-IsExclusive_example = Reach-IsExclusive boot after_lock boot-IsFresh Reach-after_lock

-- it drops the lock again
abbrev leaving : Hart
leaving = record { sie = false; pc = releasing true; held = [] }

gives : Move (store 4 true free_words) holding (unlock 4 (store 4 true free_words)) leaving
unfolding remove
gives = drop_guard 0 4 true refl refl

ends : Move free_words leaving free_words hart
unfolding drop_token
ends = drop_rest true refl

orderly : Orderly hart leaving
unfolding asks wins gives
orderly = Nested.later (Nested.later (Nested.later Nested.start asks tt) wins tt) gives refl

Orderly-sie_example : leaving.sie ≡ false
Orderly-sie_example = Orderly-sie hart leaving refl orderly

handover-sie_example :
    (w' : Words) × (h' : Hart) × (act_all (handover 3 7) free_words hart ≡ some (w', h'))
    × (h'.held ≡ guard 7 false ∷ [])
    × (w' 3 ≡ false)
    × (w' 7 ≡ true)
    × (h'.sie ≡ true)
handover-sie_example = handover-sie 3 7 free_words hart (omega arith) refl refl refl
