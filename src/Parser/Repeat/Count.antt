-- ===== src/Parser/Repeat/Count.antt =====
-- src/parser/repeat.rs: `CountMinMax`, `Count`, and the parsers that skip: `SkipMany`, `SkipMany1`,
-- `SkipCount` and `SkipCountMinMax`.
use combine.Prelude.{
  ℕ, zero, suc, ◌+◌, ◌-◌, false, String, some, none, Run, done, ◌>>=◌, ltb, if◌then◌else◌,
}
use combine.Error.ParseResult.{is_ok}
use combine.Stream.Core.{Stream}
use combine.Parser.Core.{Parser, ParseMode, Step, resumable}
use combine.Parser.Combinator.{map, ignore}
use combine.Parser.Tokens.{value}
use combine.Parser.Sequence.Build.{with}
use combine.Parser.Repeat.Iter.{Collection, sink, Iter, iter_from, next, into_result_fast, fail}
use combine.Parser.Repeat.Many.{many, many1}

-- The parser's state: the elements counted so far, the elements, and the child's state.
pub record CountState (F P : Type 0) : Type 0 where
  pub count : ℕ
  pub elements : F
  pub child : P

module _ {S : Stream} {A F : Type 0} (c : Collection A F) where
  -- `elements.extend(iter.by_ref().take(n).inspect(|_| *count += 1))`: at most `n` times.
  unfoldable pub drain_at_most :
      ℕ → (p : Parser S A) → ℕ → F → Iter S p.PartialState → Run (ℕ × F × Iter S p.PartialState)
  unfolding next
  drain_at_most zero p count elements it = done (count, elements, it)
  drain_at_most (suc n) p count elements it = do
    (item, it') ← next p it
    elim item [
      | none ↦ done (count, elements, it')
      | some v ↦ drain_at_most n p (count + 1) (c.extend elements v) it'
    ]

  -- The text of the error is `format!("expected {} more elements", n)`.
  module _ (more_elements : ℕ → String) where
    count_step :
        ℕ
        → ℕ
        → (p : Parser S A) → ParseMode
        → S.Input
        → CountState F p.PartialState
        → Run (Step S F (CountState F p.PartialState))
    unfolding drain_at_most into_result_fast fail is_ok
    count_step min max p mode input st = do
      (count, elements, it) ←
          drain_at_most (max - st.count) p st.count st.elements
            (iter_from false mode input st.child)
      let e = S.parse_error.stream_error.message_format (more_elements (min - count))
      let (r, elements') = into_result_fast c.empty elements it
      done (
          if ltb count min
          then (
            fail S e it,
            it.input,
            record { count = count; elements = elements; child = it.partial_state },
          )
          else (
            r,
            it.input,
            record {
              count = if is_ok r then 0 else count;
              elements = elements';
              child = it.partial_state;
            },
          ))

    unfoldable pub count_min_max : ℕ → ℕ → Parser S A → Parser S F
    unfolding resumable count_step
    count_min_max min max p =
        resumable S (record { count = 0; elements = c.empty; child = p.default })
          (count_step min max p)
          (record {
            add_error = p.reporter.add_error;
            add_committed_expected_error = λ e. e;
            parser_count = 1;
          })

    unfoldable pub count : ℕ → Parser S A → Parser S F
    unfolding count_min_max
    count n p = count_min_max 0 n p

module _ {S : Stream} {A : Type 0} where
  unfoldable pub skip_many : ℕ → Parser S A → Parser S (Unit {0})
  unfolding many ignore
  skip_many fuel p = ignore (many (sink (Unit {0})) fuel (ignore p))

  unfoldable pub skip_many1 : ℕ → Parser S A → Parser S (Unit {0})
  unfolding many1 ignore
  skip_many1 fuel p = ignore (many1 (sink (Unit {0})) fuel (ignore p))

  unfoldable pub skip_count : (ℕ → String) → ℕ → Parser S A → Parser S (Unit {0})
  unfolding count map with value
  skip_count more_elements n p =
      with (count (sink (Unit {0})) more_elements n (map p (λ _. tt))) (value S tt)

  unfoldable pub skip_count_min_max : (ℕ → String) → ℕ → ℕ → Parser S A → Parser S (Unit {0})
  unfolding count_min_max map with value
  skip_count_min_max more_elements min max p =
      with (count_min_max (sink (Unit {0})) more_elements min max (map p (λ _. tt))) (value S tt)
