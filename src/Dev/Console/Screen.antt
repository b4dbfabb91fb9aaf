-- ===== src/Dev/Console/Screen.antt =====
-- What the line buffer stands for: the bytes that readers have not fetched, and the line under
-- edit, cut at the cursor.
use servos.Prelude.{ℕ, ◌+◌, Bool, true, false, List, [], ◌∷◌, ◌++◌, length, ◌==◌, if◌then◌else◌}
use servos.Dev.Console.{capacity}

pub record Screen : Type 0 where
  pub pending : List ℕ
  pub before : List ℕ
  pub after : List ℕ

abbrev pub insert : Screen → ℕ → Screen
insert s ch = record s { before = s.before ++ ch ∷ [] }

abbrev pub commit : Screen → Screen
commit s = record {
  pending = s.pending ++ (s.before ++ (s.after ++ b'\n' ∷ []));
  before = [];
  after = [];
}

-- the list without its last element
unfoldable pub init : List ℕ → List ℕ
init [] = []
init (x ∷ []) = []
init (x ∷ (y ∷ l)) = x ∷ init (y ∷ l)

abbrev pub delete : Screen → Screen
delete s = record s { before = init s.before }

abbrev pub size : Screen → ℕ
size s = length s.pending + (length s.before + length s.after)

-- What a byte outside an escape sequence does.
abbrev pub typed : Screen → ℕ → Bool × Screen
typed s ch =
    if ch == 0x7f
    then (true, delete s)
    else if size s == capacity
    then (false, s)
    else (true, if ch == b'\r' then commit s else insert s ch)
