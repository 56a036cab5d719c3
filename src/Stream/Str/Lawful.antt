-- ===== src/Stream/Str/Lawful.antt =====
-- src/stream/mod.rs: strings go back to their checkpoints, and measure the ranges taken in bytes.
use combine.Prelude.{
  ℕ, ◌+◌, ◌≡◌, refl, sym, ap, ◌∙◌, Bool, true, false, List, Option, some, none, Result, ok, err,
  Run, done, ◌>>=◌, leb, le→leb, if◌then◌else◌, arith, bind-eq-done, done-injective,
}
use combine.Error.StringError.{StringStreamError, eoi, character_boundary}
use combine.Stream.Range.{IsLawful}
use combine.Stream.Str.{
  Str, str_len, split_chars, halves, split_at, is_char_boundary, uncons_range, distance, strs,
}

halves-pointer :
    (s : Str) (n : ℕ) (o : Option (List ℕ × List ℕ)) (l r : Str)
    → halves s n o ≡ done (l, r)
    → r.pointer ≡ s.pointer + n
halves-pointer s n none l r h = cc
halves-pointer s n (some (a, b)) l r h = ap (λ x. x.1.pointer) (done-injective (sym h))

split_at-pointer : (n : ℕ) (s l r : Str) → split_at n s ≡ done (l, r) → r.pointer ≡ s.pointer + n
unfolding split_at
split_at-pointer n s l r h = halves-pointer s n (split_chars n s.chars) l r h

-- What `uncons_range` does once it has looked at the length and at the byte.
taken : ℕ → Str → Bool → Bool → Run (Result Str StringStreamError × Str)
taken n s fits boundary =
    if fits
    then if boundary
      then split_at n s >>= (λ x. done (ok x.0, x.1))
      else done (err character_boundary, s)
    else done (err eoi, s)

taken-pointer :
    (n : ℕ) (s s' x : Str) (fits boundary : Bool)
    → taken n s fits boundary ≡ done (ok x, s')
    → s'.pointer ≡ s.pointer + n
unfolding taken
taken-pointer n s s' x true true h =
    let ((l, r), split, same) =
      bind-eq-done (split_at n s) (λ y. done (ok y.0, y.1)) (ok x, s') h in
    ap (λ y. y.1.pointer) (done-injective (sym same)) ∙ split_at-pointer n s l r split
taken-pointer n s s' x true false h = cc
taken-pointer n s s' x false boundary h = cc

distance_after :
    (n : ℕ) (s s' x : Str) → uncons_range n s ≡ done (ok x, s') → distance s' s ≡ done n
unfolding uncons_range distance taken
distance_after n s s' x ran =
    let moved : s'.pointer ≡ s.pointer + n =
      taken-pointer n s s' x (leb n (str_len s.chars)) (is_char_boundary s.chars n) ran in
    rw (le→leb s.pointer s'.pointer (omega (arith, moved))) (ap done (omega (arith, moved)))

-- A string goes back to its checkpoints, and the distance to a checkpoint is the number of bytes of
-- the range that was taken since.
pub strs-IsLawful : IsLawful strs
strs-IsLawful = record { resettable = λ before now. refl; distance_lem = distance_after }
