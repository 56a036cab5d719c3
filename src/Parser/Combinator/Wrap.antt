-- ===== src/Parser/Combinator/Wrap.antt =====
-- src/parser/combinator.rs: `Either`, `Lazy`, `FromStr`, and the parsers that hide the type of their
-- parser's state. Hidden behind `dyn Any`, a state is one of the parser's; the downcast to another type
-- is left out.
use combine.Prelude.{Option, some, none, Result, ok, err, done, ◌>>=◌, ◌⊎◌, inl, inr, String}
use combine.Error.Types.{static, ParseResult, commit_ok, peek_ok, commit_err, peek_err}
use combine.Error.Traits.{expected}
use combine.Stream.Core.{Stream}
use combine.Parser.Core.{Parser, parse_mode, resumable}
use combine.Parser.Combinator.{and_then}

-- The state that is kept, if it is of the parser that `Either` is.
abbrev pub left_state : {P Q : Type 0} → P → Option (P ⊎ Q) → P
left_state fresh none = fresh
left_state fresh (some (inl st)) = st
left_state fresh (some (inr _)) = fresh

abbrev pub right_state : {P Q : Type 0} → Q → Option (P ⊎ Q) → Q
right_state fresh none = fresh
right_state fresh (some (inl _)) = fresh
right_state fresh (some (inr st)) = st

abbrev or_fresh : {P : Type 0} → P → Option P → P
or_fresh fresh none = fresh
or_fresh fresh (some st) = st

-- A new state is kept only where the parser fails after it committed.
unfoldable pub keep_state :
    {A E I P : Type 0} → Option P → ParseResult A E × I × P → ParseResult A E × I × Option P
keep_state none (commit_err e, input, st) = (commit_err e, input, some st)
keep_state none (commit_ok x, input, st) = (commit_ok x, input, none)
keep_state none (peek_ok x, input, st) = (peek_ok x, input, none)
keep_state none (peek_err e, input, st) = (peek_err e, input, none)
keep_state (some _) (r, input, st) = (r, input, some st)

module _ {S : Stream} {A : Type 0} where
  -- `Either::Left(x)` and `Either::Right(x)`, where the other parser's state has the type `Q` or `P`.
  unfoldable pub either_left : (p : Parser S A) → Type 0 → Parser S A
  unfolding resumable parse_mode
  either_left p Q =
      let base =
        resumable S {P = Option (p.PartialState ⊎ Q)} none
          (λ mode input st. do
            (r, input', st') ← parse_mode p mode input (left_state p.default st)
            done (r, input', some (inl st')))
          (record {
            add_error = p.reporter.add_error;
            add_committed_expected_error = λ e. e;
            parser_count = 1;
          }) in
      record base { parse_lazy = p.parse_lazy }

  unfoldable pub either_right : Type 0 → (p : Parser S A) → Parser S A
  unfolding resumable parse_mode
  either_right P p =
      let base =
        resumable S {P = Option (P ⊎ p.PartialState)} none
          (λ mode input st. do
            (r, input', st') ← parse_mode p mode input (right_state p.default st)
            done (r, input', some (inr st')))
          (record {
            add_error = p.reporter.add_error;
            add_committed_expected_error = λ e. e;
            parser_count = 1;
          }) in
      record base { parse_lazy = p.parse_lazy }

  -- `Lazy`: `parse_committed_mode` is `parse_mode`, and the number of parsers is not passed on.
  unfoldable pub lazy : (Unit {0} → Parser S A) → Parser S A
  unfolding resumable parse_mode
  lazy f =
      let p = f tt in
      let base = resumable S p.default p.parse_mode_impl (record {
        add_error = p.reporter.add_error;
        add_committed_expected_error = p.reporter.add_committed_expected_error;
        parser_count = 1;
      }) in
      record base {
        parse_stream = p.parse_stream;
        parse_lazy = p.parse_lazy;
        parse_committed_mode = parse_mode p;
      }

  unfoldable pub hide_state : Parser S A → Parser S A
  unfolding resumable parse_mode keep_state
  hide_state p =
      let base =
        resumable S none
          (λ mode input st. do
            r ← parse_mode p mode input (or_fresh p.default st)
            done (keep_state st r))
          p.reporter in
      record base { parse_lazy = p.parse_lazy }

  unfoldable pub any_partial_state : Parser S A → Parser S A
  unfolding hide_state
  any_partial_state p = hide_state p

  unfoldable pub any_send_partial_state : Parser S A → Parser S A
  unfolding hide_state
  any_send_partial_state p = hide_state p

  unfoldable pub any_send_sync_partial_state : Parser S A → Parser S A
  unfolding hide_state
  any_send_sync_partial_state p = hide_state p

module _ (S : Stream) {A B Str : Type 0} where
  -- `StrLike::from_utf8` and `str::parse` are arguments; the error of `parse` is its text.
  from_text : (A → Result Str (Unit {0})) → (Str → Result B String) → A → Result B S.StreamErrorFor
  unfolding expected
  from_text from_utf8 parse r = elim (from_utf8 r) [
    | err _ ↦ err (expected S.parse_error.stream_error (static "UTF-8"))
    | ok s ↦ elim (parse s) [
      | ok x ↦ ok x
      | err e ↦ err (S.parse_error.stream_error.message_format e)
    ]
  ]

module _ {S : Stream} {A B Str : Type 0} where
  unfoldable pub from_str :
      (A → Result Str (Unit {0})) → (Str → Result B String) → Parser S A → Parser S B
  unfolding and_then from_text
  from_str from_utf8 parse p = and_then p (from_text S from_utf8 parse)
