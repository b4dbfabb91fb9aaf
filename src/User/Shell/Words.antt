-- ===== src/User/Shell/Words.antt =====
-- The words of a line, and the line on which the shell panics.
use servos.Prelude.{
  ℕ, zero, suc, ◌≡◌, ◌≢◌, refl, ap, sym, ◌∙◌, List, [], ◌∷◌, ◌++◌, replicate, map, append-nil,
  arith,
}
use servos.Prelude.Outcome.{panic}
use servos.Fs.Path.{Bytes, bytes_eq}
use servos.User.Calls.{Calls}
use servos.User.Shell.{split, non_empty, words, cd_name, change_dir, parse_cmd, run_lines}

abbrev pub blanks : ℕ → Bytes
blanks n = replicate n b' '

-- a word: not empty, and without a blank
abbrev pub NoBlank : Bytes → Type 0
NoBlank [] = Unit
NoBlank (b ∷ bs) = (b ≢ b' ') × NoBlank bs

abbrev pub IsWord : Bytes → Type 0
IsWord w = (w ≢ []) × NoBlank w

abbrev pub AllWords : List (Bytes × ℕ) → Type 0
AllWords [] = Unit
AllWords ((w, k) ∷ ws) = IsWord w × AllWords ws

-- A line: some blanks, and words with blanks behind each, at least one between two words.
unfoldable pub line : ℕ → List (Bytes × ℕ) → Bytes
line n [] = blanks n
line n ((w, k) ∷ []) = blanks n ++ (w ++ blanks k)
line n ((w, k) ∷ x ∷ ws) = blanks n ++ (w ++ line (suc k) (x ∷ ws))

words_blank : (s : Bytes) → words (b' ' ∷ s) ≡ words s
unfolding words split non_empty
words_blank s = refl

words-blanks : (n : ℕ) (s : Bytes) → words (blanks n ++ s) ≡ words s
words-blanks zero s = refl
words-blanks (suc n) s = words_blank (blanks n ++ s) ∙ words-blanks n s

split-word : (w s : Bytes) → NoBlank w → split b' ' (w ++ (b' ' ∷ s)) ≡ w ∷ split b' ' s
unfolding split
split-word [] s h = refl
split-word (b ∷ bs) s h = ground (arith, split-word bs s h.1, h.0)

split-last : (w : Bytes) → NoBlank w → split b' ' w ≡ w ∷ []
unfolding split
split-last [] h = refl
split-last (b ∷ bs) h = ground (arith, split-last bs h.1, h.0)

non_empty-word :
    (w : Bytes) (rest : List Bytes) → w ≢ [] → non_empty (w ∷ rest) ≡ w ∷ non_empty rest
unfolding non_empty
non_empty-word [] rest h = absurd (h refl)
non_empty-word (b ∷ bs) rest h = refl

-- a word with at least one blank behind it
words-word : (w s : Bytes) → IsWord w → words (w ++ (b' ' ∷ s)) ≡ w ∷ words s
unfolding words
words-word w s h = ap non_empty (split-word w s h.1) ∙ non_empty-word w (split b' ' s) h.0

words_nil : words [] ≡ []
unfolding words split non_empty
words_nil = refl

-- the last word
words-last : (w : Bytes) (k : ℕ) → IsWord w → words (w ++ blanks k) ≡ w ∷ []
words-last w zero h =
    ap words (append-nil w)
    ∙ (unfold words in
        (ap non_empty (split-last w h.1) ∙ (non_empty-word w [] h.0 ∙ ap (λ l. w ∷ l) nothing)))
  where
    nothing : non_empty [] ≡ []
    nothing = unfold non_empty in refl
words-last w (suc k) h =
    words-word w (blanks k) h
    ∙ ap (λ l. w ∷ l) (ap words (sym (append-nil (blanks k))) ∙ (words-blanks k [] ∙ words_nil))

-- The words of a line are read back, however many blanks are around them.
pub words-line :
    (n : ℕ) (ws : List (Bytes × ℕ)) → AllWords ws → words (line n ws) ≡ map (λ x. x.0) ws
unfolding line
words-line n [] h = ap words (sym (append-nil (blanks n))) ∙ (words-blanks n [] ∙ words_nil)
words-line n ((w, k) ∷ []) h = words-blanks n (w ++ blanks k) ∙ words-last w k h.0
words-line n ((w, k) ∷ x ∷ ws) h =
    words-blanks n (w ++ line (suc k) (x ∷ ws))
    ∙ (ap (λ l. words (w ++ l)) (line_suc k x ws)
        ∙ (words-word w (line k (x ∷ ws)) h.0 ∙ ap (λ l. w ∷ l) (words-line k (x ∷ ws) h.1)))
  where
    line_suc :
        (j : ℕ) (y : Bytes × ℕ) (ys : List (Bytes × ℕ))
        → line (suc j) (y ∷ ys) ≡ b' ' ∷ line j (y ∷ ys)
    line_suc j (v, i) [] = refl
    line_suc j (v, i) (z ∷ zs) = refl

cd-IsWord : IsWord cd_name
cd-IsWord = (λ e. cc, (λ e. absurd (omega (arith, e)), (λ e. absurd (omega (arith, e)), tt)))

cd_alone :
    {W : Type 0} (c : Calls W) (raw : Bytes) (w : W) → parse_cmd c raw (cd_name ∷ []) w ≡ panic
unfolding parse_cmd change_dir bytes_eq
cd_alone c raw w = refl

-- A line that holds the word `cd` and nothing else but blanks makes the shell panic, whatever the
-- lines behind it are.
pub run_lines-cd :
    {W : Type 0} (c : Calls W) (n k last : ℕ) (lines : List Bytes) (w : W)
    → run_lines c (line n ((cd_name, k) ∷ []) ∷ lines) last w ≡ panic
unfolding run_lines
run_lines-cd c n k last lines w =
    let cmd = line n ((cd_name, k) ∷ []) in
    let e : words cmd ≡ cd_name ∷ [] = words-line n ((cd_name, k) ∷ []) (cd-IsWord, tt) in
    ground (arith, e, cd_alone c cmd w)
