-- ===== src/Dev/Console/Erase.antt =====
-- What the delete key does to the screen.
use servos.Prelude.{
  ℕ, ◌+◌, ◌-◌, ◌≤◌, ◌<◌, ◌≡◌, refl, ap, sym, ◌∙◌, Bool, true, false, List, arith, ◌==◌,
  if◌then◌else◌, eq-or-ne, lt→ltb, inl, inr,
}
use servos.Dev.Console.{Buffer, byte_at, shift_down, bytes_from, backspace}
use servos.Dev.Console.Ring.{byte_at-shift_down, bytes_from-agree, init-bytes_from}
use servos.Dev.Console.Screen.{delete, init}
use servos.Dev.Console.Valid.{IsValid}
use servos.Dev.Console.Push.{screen, screen-eq}

module _ (b : Buffer) (v : IsValid b) where
  abbrev shrunk : List ℕ
  shrunk =
      if b.wend - 1 == b.write - 1
      then b.buf
      else shift_down (b.wend - 1 - (b.write - 1)) (b.write - 1) b.buf

  shrunk-shift_down : shrunk ≡ shift_down (b.wend - 1 - (b.write - 1)) (b.write - 1) b.buf
  unfolding shift_down
  shrunk-shift_down = elim (eq-or-ne (b.wend - 1) (b.write - 1)) [
    | inl e ↦ nothing (b.wend - 1 - (b.write - 1)) (b.wend - 1 == b.write - 1) (omega arith)
    | inr ne ↦ ground arith
  ]
    where
      nothing :
          (k : ℕ) (c : Bool)
          → k ≡ 0
          → (if c then b.buf else shift_down k (b.write - 1) b.buf)
            ≡ shift_down k (b.write - 1) b.buf
      nothing k true e = rw e
      nothing k false e = refl

  abbrev moved : List ℕ
  moved = shift_down (b.wend - 1 - (b.write - 1)) (b.write - 1) b.buf

  backspace-eq :
      b.rend < b.write
      → backspace b ≡ record b { buf = moved; write = b.write - 1; wend = b.wend - 1 }
  unfolding backspace
  backspace-eq h =
      rw (lt→ltb b.rend b.write h)
        (ap (λ l. record b { buf = l; write = b.write - 1; wend = b.wend - 1 }) shrunk-shift_down)

  module _ (h : b.rend < b.write) where
    moved-low : (j : ℕ) → b.read ≤ j → j < b.write - 1 → byte_at moved j ≡ byte_at b.buf j
    moved-low j lo hi = ground (
      arith,
      byte_at-shift_down (b.wend - 1 - (b.write - 1)) (b.write - 1) b.buf j v.size (omega arith)
          (omega arith) (omega arith),
    )

    moved-high :
        (j : ℕ) → b.write - 1 ≤ j → j < b.wend - 1 → byte_at moved j ≡ byte_at b.buf (j + 1)
    moved-high j lo hi = ground (
      arith,
      byte_at-shift_down (b.wend - 1 - (b.write - 1)) (b.write - 1) b.buf j v.size (omega arith)
          (omega arith) (omega arith),
    )

    backspace-screen : screen (backspace b) ≡ delete (screen b)
    unfolding screen
    backspace-screen =
        ap screen (backspace-eq h)
        ∙ screen-eq
            (bytes_from-agree b.buf moved b.read b.read (b.rend - b.read)
              (λ k lt. moved-low (b.read + k) (omega arith) (omega arith)))
            before' after'
      where
        before' :
            bytes_from moved b.rend (b.write - 1 - b.rend)
            ≡ init (bytes_from b.buf b.rend (b.write - b.rend))
        before' =
            bytes_from-agree b.buf moved b.rend b.rend (b.write - 1 - b.rend)
              (λ k lt. moved-low (b.rend + k) (omega arith) (omega arith))
            ∙ (ap (bytes_from b.buf b.rend) (omega arith)
                ∙ sym (init-bytes_from b.buf b.rend (b.write - b.rend)))

        after' :
            bytes_from moved (b.write - 1) (b.wend - 1 - (b.write - 1))
            ≡ bytes_from b.buf b.write (b.wend - b.write)
        after' =
            bytes_from-agree b.buf moved b.write (b.write - 1) (b.wend - 1 - (b.write - 1)) (λ k lt.
              moved-high (b.write - 1 + k) (omega arith) (omega arith)
              ∙ ap (byte_at b.buf) (omega arith))
            ∙ ap (bytes_from b.buf b.write) (omega arith)

  backspace-none : b.write ≡ b.rend → backspace b ≡ b
  unfolding backspace
  backspace-none e = ground arith

  -- At the start of the line the key does nothing.
  backspace-start : b.write ≡ b.rend → screen (backspace b) ≡ delete (screen b)
  unfolding screen init bytes_from
  backspace-start e =
      ap screen (backspace-none e) ∙ screen-eq refl (nothing (b.write - b.rend) (omega arith)) refl
    where
      nothing : (k : ℕ) → k ≡ 0 → bytes_from b.buf b.rend k ≡ init (bytes_from b.buf b.rend k)
      nothing k z = rw z

  pub backspace_refines : screen (backspace b) ≡ delete (screen b)
  backspace_refines = elim (eq-or-ne b.write b.rend) [
    | inl e ↦ backspace-start e
    | inr ne ↦ backspace-screen (omega arith)
  ]
