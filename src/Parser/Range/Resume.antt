-- ===== src/Parser/Range/Resume.antt =====
-- src/parser/range.rs over partial slices: `take_while` stops where all of a slice passes, and is
-- resumed behind what it had read.
use combine.Prelude.{
  ℕ, zero, suc, ◌+◌, ◌-◌, ◌*◌, ◌≤◌, ◌<◌, ◌≡◌, refl, ap, ◌∙◌, Bool, true, false, List, [], ◌∷◌, Run,
  done, ◌>>=◌, ◌==◌, if◌then◌else◌, length, take, drop, take_while, drop_while, arith, Bool-cases,
  inl, inr, ==_iff,
}
use combine.Error.Types.{commit_ok, peek_ok, commit_err}
use combine.Error.Unexpected.{UnexpectedParse, eoi}
use combine.Stream.Slice.{Slice}
use combine.Stream.Slice.While.{passing-le, take-passing, drop-passing}
use combine.Stream.Range.{RangeStream, uncons_while, uncons_range as uncons_range_of}
use combine.Stream.Range.Slices.{uncons_range-fits, distance_lem}
use combine.Parser.Core.{ParseMode, first_mode, partial_mode, resume_mode, is_first}
use combine.Parser.Range.{
  parse_partial_range, skip_read, retake, suspend, first_result, resume_result,
}
use combine.Parser.Range.Take.{partial_slices, prefix, rest, step, while-more, while-enough}

module _ {T : Type 0} (size : ℕ) (f : T → Bool) where
  abbrev parts : RangeStream
  parts = partial_slices {T = T} size f

  -- The slice behind its first `d` items.
  unfoldable behind : ℕ → Slice T → Slice T
  behind d s = record { pointer = s.pointer + d * size; items = drop d s.items }

  drop_while-drop :
      (d : ℕ) (xs : List T)
      → d ≤ length (take_while f xs)
      → drop_while f (drop d xs) ≡ drop_while f xs
  drop_while-drop zero xs h = refl
  drop_while-drop (suc d) [] h = absurd (omega (arith, h))
  drop_while-drop (suc d) (x ∷ xs) h = elim (Bool-cases (f x)) [
    | inl passes ↦
        let n : length (take_while f (x ∷ xs)) ≡ suc (length (take_while f xs)) = rw passes refl in
        rw passes (drop_while-drop d xs (omega (arith, h, n)))
    | inr fails ↦
        let n : length (take_while f (x ∷ xs)) ≡ 0 = rw fails refl in absurd (omega (arith, h, n))
  ]

  pub length-drop_while :
      (xs : List T) → length (drop_while f xs) + length (take_while f xs) ≡ length xs
  length-drop_while [] = omega arith
  length-drop_while (x ∷ xs) = elim (Bool-cases (f x)) [
    | inl passes ↦ rw passes (omega (arith, length-drop_while xs))
    | inr fails ↦ rw fails (omega arith)
  ]

  skip-done :
      {X : Type 0} (d : ℕ) (s : Slice T) (k : Slice T → Run X)
      → d ≤ length s.items
      → skip_read parts d s k ≡ k (behind d s)
  unfolding skip_read behind uncons_range_of
  skip-done d s k h = rw (uncons_range-fits size d s h) refl

  suspend_lem :
      (before input : Slice T) (e : UnexpectedParse)
      → length input.items ≤ length before.items
      → suspend parts {A = Slice T} before e input (λ d. d)
        ≡ done (commit_err e, before, length before.items - length input.items)
  unfolding suspend
  suspend_lem before input e h = rw (distance_lem size input before h) refl

  retake_lem :
      (before input : Slice T) (d : ℕ)
      → length input.items < length before.items
      → retake parts {A = Slice T} before input (λ x. x) d 0
        ≡ done (
          commit_ok (record {
            pointer = before.pointer;
            items = take (length before.items - length input.items) before.items;
          }),
          behind (length before.items - length input.items) before,
          0,
        )
  unfolding retake behind uncons_range_of
  retake_lem before input d h =
      let n = length before.items - length input.items in
      let some_read : (n == 0) ≡ false = elim (Bool-cases (n == 0)) [
        | inl e ↦ absurd (omega (arith, (==_iff n 0).0 e))
        | inr e ↦ e
      ] in
      rw (
        distance_lem size input before (omega arith),
        uncons_range-fits size n before (omega arith),
        some_read,
      )

  not-zero : (d : ℕ) → 0 < d → (d == 0) ≡ false
  not-zero d h = ground arith

  -- Resumed behind `d` items, the step is a run of `uncons_while` from there.
  step-resume :
      (w : Slice T) (d : ℕ)
      → 0 < d
      → d ≤ length w.items
      → step size f resume_mode w d
        ≡ (uncons_while parts f (behind d w) >>= resume_result parts w d)
  unfolding parse_partial_range
  step-resume w d h le = rw (not-zero d h) (skip-done d w _ le)

  step-start :
      (mode : ParseMode) (w : Slice T)
      → step size f mode w 0 ≡ (uncons_while parts f w >>= first_result parts w 0)
  unfolding parse_partial_range is_first
  step-start first_mode w = refl
  step-start (partial_mode true) w = refl
  step-start (partial_mode false) w = refl

  -- A result behind `d` items becomes the range of all that was read.
  resume-retake :
      (w s : Slice T) (b : Bool) (x : Slice T) (d : ℕ)
      → resume_result parts w d (if b then peek_ok x else commit_ok x, s)
        ≡ retake parts {A = Slice T} w s (λ r. r) d 0
  unfolding resume_result
  resume-retake w s true x d = refl
  resume-retake w s false x d = refl

  start-suspend :
      (w s : Slice T)
      → length s.items ≤ length w.items
      → first_result parts w 0 (commit_err eoi, s)
        ≡ done (commit_err eoi, w, length w.items - length s.items)
  unfolding first_result
  start-suspend w s h = suspend_lem w s eoi h

  resume-suspend :
      (w s : Slice T) (d : ℕ)
      → length s.items ≤ length w.items
      → resume_result parts w d (commit_err eoi, s)
        ≡ done (commit_err eoi, w, length w.items - length s.items)
  unfolding resume_result
  resume-suspend w s d h = suspend_lem w s eoi h

  -- Where the end of the prefix has come, a resumed parser gives all of it, also what it had read
  -- before.
  pub take_while-resumed :
      (w : Slice T) (d : ℕ) (x : T) (xs : List T)
      → 0 < d
      → d ≤ length (take_while f w.items)
      → drop_while f w.items ≡ x ∷ xs
      → step size f resume_mode w d ≡ done (commit_ok (prefix size f w), rest size f w, 0)
  unfolding rest prefix behind
  take_while-resumed w d x xs h le some_fail =
      let sum = length-drop_while w.items in
      let sum' : length (drop_while f w.items) + length (take_while f w.items) ≡ length w.items =
        sum in
      let same = drop_while-drop d w.items le in
      let after = while-enough size f (behind d w) x xs (same ∙ some_fail) in
      let n : length w.items - length (drop_while f w.items) ≡ length (take_while f w.items) =
        omega (arith, sum') in
      step-resume w d h (omega (arith, passing-le f w.items, le))
      ∙ rw (after) (
          resume-retake w (rest size f (behind d w)) _ (prefix size f (behind d w)) d
          ∙ retake_lem w (rest size f (behind d w)) d (rw same (omega (arith, sum', h, le)))
          ∙ rw (same, n, take-passing f w.items, drop-passing f w.items))

  -- Where all of a partial slice passes, more input is asked for, the slice goes back to its start,
  -- and how much of it was read is kept.
  pub take_while-suspended :
      (w : Slice T) (d : ℕ)
      → d ≤ length w.items
      → drop_while f w.items ≡ []
      → step size f resume_mode w d ≡ done (commit_err eoi, w, length w.items)
  unfolding rest behind
  take_while-suspended w zero le all_pass =
      step-start resume_mode w
      ∙ rw (while-more size f w all_pass) (
          start-suspend w (rest size f w) (rw all_pass (omega arith))
          ∙ rw all_pass (ap (λ n. done (commit_err eoi, w, n)) (omega arith)))
  take_while-suspended w (suc d) le all_pass =
      let sum = length-drop_while w.items in
      let none_left : length (drop_while f w.items) ≡ 0 = rw all_pass refl in
      let same = drop_while-drop (suc d) w.items (omega (arith, sum, none_left, le)) ∙ all_pass in
      step-resume w (suc d) (omega arith) le
      ∙ rw (while-more size f (behind (suc d) w) same) (
          resume-suspend w (rest size f (behind (suc d) w)) (suc d) (rw same (omega arith))
          ∙ rw same (ap (λ n. done (commit_err eoi, w, n)) (omega arith)))
