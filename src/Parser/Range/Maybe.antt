-- ===== src/Parser/Range/Maybe.antt =====
-- src/parser/range.rs over `MaybePartialStream`: the step of `take_while` is that over a
-- `PartialStream`, where the slice is partial, and a parse of it all, where it is not.
use combine.Prelude.{
  ℕ, zero, suc, ◌≡◌, refl, sym, ◌∙◌, ap, Bool, true, false, List, [], ◌∷◌, Result, ok, err, done,
  panicked, ◌>>=◌, length, take_while, arith, bind_assoc, bind_then, ◌==◌, if◌then◌else◌,
}
use combine.Error.Types.{commit_ok, peek_ok, commit_err, peek_err}
use combine.Error.Unexpected.{UnexpectedParse, eoi, unexpected}
use combine.Stream.Slice.{Slice, uncons}
use combine.Stream.Ops.{wrap_stream_error}
use combine.Stream.Range.{
  RangeStream, Ranged, uncons_while, or_end, uncons_range as uncons_range_of, range_result,
}
use combine.Stream.Range.Slices.{slices}
use combine.Stream.Range.Wrappers.{maybe_partial_range}
use combine.Parser.Core.{Step, resume_mode}
use combine.Parser.Range.{
  suspend, retake, retaken, first_result, resume_result, skip_read, parse_partial_range,
}
use combine.Parser.Range.Take.{prefix, rest, step, slice-while, partial_slices}

module _ {T : Type 0} (size : ℕ) (f : T → Bool) where
  abbrev pub maybe : RangeStream
  maybe = maybe_partial_range (slices T size)

  abbrev pub parts : RangeStream
  parts = partial_slices {T = T} size f

  -- The step over the slice, beside the flag.
  abbrev pub tagged : Step parts.stream (Slice T) ℕ → Step maybe.stream (Slice T) ℕ
  tagged (r, s, d) = (r, (s, true), d)

  abbrev tagged_range : Ranged parts → Ranged maybe
  tagged_range (r, s) = (r, (s, true))

  suspend-tagged :
      (before s : Slice T) (e : UnexpectedParse)
      → suspend maybe {A = Slice T} before e (s, true) (λ d. d)
        ≡ (suspend parts {A = Slice T} before e s (λ d. d) >>= λ x. done (tagged x))
  unfolding suspend
  suspend-tagged before s e = sym (bind_assoc ((slices T size).distance s before) _ _)

  or_end-tagged :
      (x : Slice T) (p : ℕ) (items : List T)
      → or_end maybe
          (λ _. if length x.items == 0 then peek_ok x else commit_ok x)
          (record { pointer = p; items = items }, true)
        ≡ tagged_range (
            or_end parts
              (λ _. if length x.items == 0 then peek_ok x else commit_ok x)
              (record { pointer = p; items = items }))
  unfolding or_end uncons
  or_end-tagged x p [] = refl
  or_end-tagged x p (y ∷ ys) = refl

  uncons_while-tagged :
      (s : Slice T)
      → uncons_while maybe f (s, true) ≡ (uncons_while parts f s >>= λ x. done (tagged_range x))
  unfolding uncons_while
  uncons_while-tagged s =
      rw (slice-while size f s)
        (ap done (or_end-tagged (prefix size f s) (rest size f s).pointer (rest size f s).items))

  first-tagged :
      (before : Slice T) (d : ℕ) (x : Ranged parts)
      → first_result maybe before d (tagged_range x)
        ≡ (first_result parts before d x >>= λ y. done (tagged y))
  unfolding first_result
  first-tagged before d (commit_ok x, s) = refl
  first-tagged before d (peek_ok x, s) = refl
  first-tagged before d (peek_err x, s) = refl
  first-tagged before d (commit_err e, s) = suspend-tagged before s e

  result-tagged :
      (n : ℕ) (x : Result (Slice T) UnexpectedParse × Slice T)
      → range_result maybe n (x.0, (x.1, true)) ≡ tagged_range (range_result parts n x)
  unfolding range_result wrap_stream_error
  result-tagged n (ok x, s) = refl
  result-tagged n (err eoi, s) = refl
  result-tagged n (err unexpected, s) = refl

  uncons_range-tagged :
      (before : Slice T) (n : ℕ)
      → uncons_range_of maybe n (before, true)
        ≡ (uncons_range_of parts n before >>= λ r. done (tagged_range r))
  unfolding uncons_range_of
  uncons_range-tagged before n =
      bind_assoc ((slices T size).uncons_range n before) _ _
      ∙ bind_then ((slices T size).uncons_range n before) _ _ _ (λ x. ap done (result-tagged n x))

  retaken-tagged :
      (kept fresh : ℕ) (r : Ranged parts)
      → retaken maybe (λ x. x) kept fresh (tagged_range r)
        ≡ tagged (retaken parts {A = Slice T} (λ x. x) kept fresh r)
  unfolding retaken
  retaken-tagged kept fresh (commit_ok x, s) = refl
  retaken-tagged kept fresh (peek_ok x, s) = refl
  retaken-tagged kept fresh (commit_err e, s) = refl
  retaken-tagged kept fresh (peek_err e, s) = refl

  range-tagged :
      (before : Slice T) (d n : ℕ)
      → (uncons_range_of maybe n (before, true) >>= λ r. done (retaken maybe (λ x. x) d 0 r)) ≡ (
          (uncons_range_of parts n before >>= λ r.
          done (retaken parts {A = Slice T} (λ x. x) d 0 r))
          >>= λ y. done (tagged y))
  range-tagged before d n = rw (uncons_range-tagged before n) (
      bind_assoc (uncons_range_of parts n before) _ _
      ∙ bind_then (uncons_range_of parts n before) _ _ _ (λ r. ap done (retaken-tagged d 0 r)))

  retake-tagged :
      (before s : Slice T) (d : ℕ)
      → retake maybe {A = Slice T} before (s, true) (λ x. x) d 0
        ≡ (retake parts {A = Slice T} before s (λ x. x) d 0 >>= λ y. done (tagged y))
  unfolding retake
  retake-tagged before s d =
      bind_then ((slices T size).distance s before) _ _ _ (range-tagged before d)

  resumed-tagged :
      (before : Slice T) (d : ℕ) (x : Ranged parts)
      → resume_result maybe before d (tagged_range x)
        ≡ (resume_result parts before d x >>= λ y. done (tagged y))
  unfolding resume_result
  resumed-tagged before d (commit_ok x, s) = retake-tagged before s d
  resumed-tagged before d (peek_ok x, s) = retake-tagged before s d
  resumed-tagged before d (peek_err x, s) = refl
  resumed-tagged before d (commit_err e, s) = suspend-tagged before s e

  skipped-tagged :
      (before : Slice T) (d : ℕ) (x : Result (Slice T) UnexpectedParse × Slice T)
      → (elim x.0 [
        | ok _ ↦ uncons_while maybe f (x.1, true) >>= resume_result maybe before d
        | err _ ↦ panicked
      ])
        ≡ ((elim x.0 [
          | ok _ ↦ uncons_while parts f x.1 >>= resume_result parts before d
          | err _ ↦ panicked
        ])
            >>= λ y. done (tagged y))
  skipped-tagged before d (ok r, s) = rw (uncons_while-tagged s) (
      bind_assoc (uncons_while parts f s) _ _
      ∙ bind_then (uncons_while parts f s) _ _ _ (resumed-tagged before d))
  skipped-tagged before d (err e, s) = refl

  not-zero : (d : ℕ) → (suc d == 0) ≡ false
  not-zero d = ground arith

  -- On a partial slice the step does what it does on a `PartialStream`.
  pub step-tagged :
      (s : Slice T) (d : ℕ)
      → parse_partial_range maybe
          (uncons_while maybe f)
          (uncons_while maybe f)
          resume_mode
          (s, true)
          d
        ≡ (step size f resume_mode s d >>= λ y. done (tagged y))
  unfolding parse_partial_range skip_read
  step-tagged s zero = rw (uncons_while-tagged s) (
      bind_assoc (uncons_while parts f s) _ _
      ∙ bind_then (uncons_while parts f s) _ _ _ (first-tagged s 0))
  step-tagged s (suc d) = rw (not-zero d) (
      bind_assoc ((slices T size).uncons_range (suc d) s) _ _
      ∙ bind_then ((slices T size).uncons_range (suc d) s) _ _ _ (skipped-tagged s (suc d)))

  -- A slice that is all there is parsed from its start, whatever is left in the state.
  pub while-whole :
      (s : Slice T)
      → uncons_while maybe f (s, false)
        ≡ done (
          if length (take_while f s.items) == 0
              then peek_ok (prefix size f s)
              else commit_ok (prefix size f s),
          (rest size f s, false),
        )
  unfolding uncons_while or_end prefix
  while-whole s = rw (slice-while size f s)
