-- ===== src/Parser/Tokens.antt =====
-- src/parser/token.rs: the parsers of token sequences, `Tokens` and `TokensCmp`, and the parsers
-- that give a value without reading: `Value`, `Produce`, `Position` and `Eof`.
use combine.Prelude.{Bool, true, false, List, [], ◌∷◌, done, ok, err, if◌then◌else◌}
use combine.Error.Types.{
  tracked, ParseResult, commit_ok, peek_ok, commit_err, peek_err, Info, static,
}
use combine.Error.Traits.{add_expected}
use combine.Stream.Core.{Stream}
use combine.Stream.Ops.{uncons}
use combine.Parser.Core.{Parser, Outcome, leaf, silent_error, reset_then}
use combine.Parser.Token.{expect}

module _ (S : Stream) {T : Type 0} (cmp : T → S.Token → Bool) where
  -- What the loop returns at its first mismatch: `found` has been read after `start`.
  mismatch : (S.Error → S.Error) → S.Position → Bool → S.Token → ParseResult (List T) S.Error
  mismatch add_info start true found = commit_err (
      add_info (S.parse_error.from_error start (S.parse_error.stream_error.unexpected_token found)))
  mismatch add_info start false found = peek_err (tracked (S.parse_error.empty start))

  -- The loop over the tokens that are left, after which `all` is returned.
  -- `add_info` is what is added to the error of a mismatch after the first token.
  module _ (add_info : S.Error → S.Error) (all : List T) (start : S.Position) where
    tokens_loop : List T → Bool → S.Input → Outcome S (List T)
    unfolding mismatch uncons
    tokens_loop [] committed input = (if committed then commit_ok all else peek_ok all, input)
    tokens_loop (c ∷ cs) committed input =
        let rest = tokens_loop cs true (uncons S input).1 in
        elim (uncons S input).0 [
          | commit_ok other ↦
              if cmp c other
              then rest
              else (mismatch add_info start committed other, (uncons S input).1)
          | peek_ok other ↦
              if cmp c other
              then rest
              else (mismatch add_info start committed other, (uncons S input).1)
          | peek_err e ↦ (
            if committed
                then commit_err (S.parse_error.set_position start e.error)
                else peek_err (record e { error = S.parse_error.set_position start e.error }),
            (uncons S input).1,
          )
          | commit_err e ↦ (commit_err (S.parse_error.set_position start e), (uncons S input).1)
        ]

  unfoldable pub tokens : Info S.Token S.Range → List T → Parser S (List T)
  unfolding leaf tokens_loop expect add_expected
  tokens expected ts =
      leaf S
        (λ input.
          done (
            tokens_loop (add_expected S.parse_error expected) ts (S.position input) ts false input))
        (expect S expected)

  unfoldable pub tokens_cmp : List T → Parser S (List T)
  unfolding leaf tokens_loop
  tokens_cmp ts =
      leaf S (λ input. done (tokens_loop (λ e. e) ts (S.position input) ts false input))
        silent_error

module _ (S : Stream) where
  unfoldable pub value : {A : Type 0} → A → Parser S A
  unfolding leaf
  value v = leaf S (λ input. done (peek_ok v, input)) silent_error

  unfoldable pub produce : {A : Type 0} → (Unit {0} → A) → Parser S A
  unfolding leaf
  produce f = leaf S (λ input. done (peek_ok (f tt), input)) silent_error

  unfoldable pub position : Parser S S.Position
  unfolding leaf
  position = leaf S (λ input. done (peek_ok (S.position input), input)) silent_error

  -- The `_` arm of the match in `Eof::parse_lazy`.
  not_at_end : S.Checkpoint → S.Input → Outcome S (Unit {0})
  unfolding reset_then
  not_at_end before input =
      reset_then S before input (λ e i. (commit_err e, i))
        λ i. (peek_err (tracked (S.parse_error.empty (S.position i))), i)

  eof_lazy : S.Input → Outcome S (Unit {0})
  unfolding not_at_end
  eof_lazy input = elim (S.uncons input).0 [
    | ok _ ↦ not_at_end (S.checkpoint input) (S.uncons input).1
    | err e ↦
        if S.parse_error.stream_error.is_unexpected_end_of_input e
        then (peek_ok tt, (S.uncons input).1)
        else not_at_end (S.checkpoint input) (S.uncons input).1
  ]

  unfoldable pub eof : Parser S (Unit {0})
  unfolding leaf eof_lazy expect
  eof = leaf S (λ input. done (eof_lazy input)) (expect S (static "end of input"))
