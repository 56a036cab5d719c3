-- ===== src/Parser/Sequence/Errors.antt =====
-- src/parser/sequence.rs, `tuple_parser!`: what a tuple of parsers reports. The macro unrolls a loop
-- over the parsers; here it is a recursion over their reporters. An offset is a `u8`.
use Prim.Native.Nat.{◌%◌}
use combine.Prelude.{
  ℕ, ◌+◌, ◌-◌, min, Bool, false, List, [], ◌∷◌, Result, ok, err, leb, ◌==◌, if◌then◌else◌,
}
use combine.Error.Types.{ErrorOffset, Tracked, commit_err, peek_err}
use combine.Stream.Core.{Stream}
use combine.Parser.Core.{Reporter, Outcome}

-- `u8::saturating_add`.
unfoldable pub saturating_add : ErrorOffset → ErrorOffset → ErrorOffset
saturating_add a b = min (a + b) 255

abbrev with_offset : {E : Type 0} → ErrorOffset → Tracked E → Tracked E
with_offset n e = record e { offset = n }

module _ {S : Stream} where
  -- The two tests of the closure in `add_errors`, for the parser at index `i`: the errors after it,
  -- and whether the loop stops here.
  add_from : Reporter S → Bool → ErrorOffset → Tracked S.Error → Tracked S.Error × Bool
  add_from p reached inner_offset e =
      let e' = p.add_error (if leb e.offset 1 then with_offset inner_offset e else e) in
      if reached then (e', leb e'.offset 1) else (e, false)

  -- `dispatch_on!` with the closure of `add_errors`.
  dispatch_errors : List (Reporter S) → ℕ → ℕ → ErrorOffset → Tracked S.Error → Tracked S.Error
  unfolding add_from
  dispatch_errors [] i first_empty_parser inner_offset e = e
  dispatch_errors (p ∷ ps) i first_empty_parser inner_offset e =
      let e₁ = if i + 1 == first_empty_parser then p.add_committed_expected_error e else e in
      let (e₂, stop) = add_from p (leb first_empty_parser i) inner_offset e₁ in
      let rest =
        dispatch_errors ps (i + 1) first_empty_parser inner_offset
          (with_offset (e₂.offset - p.parser_count) e₂) in
      if stop then e₂ else rest

  -- `add_error` after the first parser: `left` counts the parsers from this one to the last.
  add_error_rest : List (Reporter S) → Tracked S.Error → Tracked S.Error
  add_error_rest [] e = e
  add_error_rest (p ∷ ps) e =
      let e' = p.add_error e in
      let skipped =
        if e'.offset == e.offset then with_offset (e'.offset - p.parser_count) e' else e' in
      let rest = add_error_rest ps (elim ps [ [] ↦ e' | _ ∷ _ ↦ skipped ]) in
      if leb e'.offset 1 then with_offset (e'.offset - 1) e' else rest

  unfoldable pub tuple_add_error :
      Reporter S → List (Reporter S) → Tracked S.Error → Tracked S.Error
  unfolding add_error_rest
  tuple_add_error h ps e =
      let e' = h.add_error e in
      let skipped =
        if e'.offset == e.offset then with_offset (e'.offset - h.parser_count) e' else e' in
      let rest = add_error_rest ps skipped in
      if leb e'.offset 1 then with_offset (e'.offset - 1) e' else rest

  last_committed : Reporter S → List (Reporter S) → Tracked S.Error → Tracked S.Error
  last_committed h [] e = h.add_committed_expected_error e
  last_committed h (p ∷ ps) e = last_committed p ps e

  -- The sum of the counts, `+` on `u8` as a release build computes it.
  count_all : Reporter S → List (Reporter S) → ErrorOffset
  count_all h [] = h.parser_count
  count_all h (p ∷ ps) = (h.parser_count + count_all p ps) % 256

  unfoldable pub tuple_reporter : Reporter S → List (Reporter S) → Reporter S
  unfolding tuple_add_error last_committed count_all
  tuple_reporter h ps = record {
    add_error = tuple_add_error h ps;
    add_committed_expected_error = last_committed h ps;
    parser_count = count_all h ps;
  }

-- `if let Ok(t) = input.uncons() { err.error.add(..) }`.
add_next : (S : Stream) → Result S.Token S.StreamErrorFor → Tracked S.Error → Tracked S.Error
add_next S (ok t) e = record e {
  error = S.parse_error.add (S.parse_error.stream_error.unexpected_token t) e.error;
}
add_next S (err _) e = e

module _ (S : Stream) {A : Type 0} where
  -- `add_errors`: the error of a parser after the first, once the input is back before it.
  unfoldable pub add_errors :
      List (Reporter S) → Tracked S.Error → ℕ → ErrorOffset → S.Input → Outcome S A
  unfolding dispatch_errors add_next
  add_errors reporters e first_empty_parser offset input =
      let e₁ = add_next S (S.uncons input).0 (with_offset offset e) in
      let e₂ = dispatch_errors reporters 0 first_empty_parser e.offset e₁ in
      if first_empty_parser == 0
      then (peek_err (with_offset offset e), input)
      else (commit_err e₂.error, (S.uncons input).1)
