-- ===== src/Dev/Console/Tests.antt =====
-- The laws of the line buffer on buffers with a few bytes.
use servos.Prelude.{◌≡◌, List, [], ◌∷◌, take, drop, arith}
use servos.Dev.Console.{Buffer, new, put_plain, read}
use servos.Dev.Console.Screen.{typed}
use servos.Dev.Console.Valid.{IsValid, Event, arrives, reads, run, run-IsValid}
use servos.Dev.Console.Push.{screen, view}
use servos.Dev.Console.Refine.{read_refines, put_plain_refines}

new-IsValid : IsValid new
new-IsValid = omega arith

-- a line is typed, corrected and entered, and half of it is read
abbrev events : List Event
events = arrives b'a' ∷ arrives b'b' ∷ arrives 0x7f ∷ arrives b'\r' ∷ reads 1 ∷ []

run-IsValid_example : IsValid (run new events)
run-IsValid_example = run-IsValid new events new-IsValid

-- the buffer with the line `a`, entered
abbrev entered : Buffer
entered = run new (arrives b'a' ∷ arrives b'\r' ∷ [])

read_refines_example :
    ((read entered 1).0 ≡ take 1 (screen entered).pending)
    × (screen (read entered 1).1
        ≡ record (screen entered) { pending = drop 1 (screen entered).pending })
read_refines_example =
    read_refines entered 1 (run-IsValid new (arrives b'a' ∷ arrives b'\r' ∷ []) new-IsValid)

put_plain_refines_example : view (put_plain entered b'x') ≡ typed (screen entered) b'x'
put_plain_refines_example =
    put_plain_refines entered b'x' (run-IsValid new (arrives b'a' ∷ arrives b'\r' ∷ []) new-IsValid)
      (omega arith)
