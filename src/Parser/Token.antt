-- ===== src/Parser/Token.antt =====
-- src/parser/token.rs: the parsers of single tokens and of token sequences, the end of the input,
-- and the parsers that give a value without reading. `Satisfy`, `SatisfyMap`, `Token`, `OneOf` and
-- `NoneOf` share `satisfy_impl`. The `PartialEq` of tokens is the argument `eq`.
use combine.Prelude.{
  Bool, false, not, ◌||◌, List, [], ◌∷◌, Option, some, none, done, if◌then◌else◌, all,
}
use combine.Error.Types.{Tracked, tracked, commit_ok, peek_ok, commit_err, peek_err, Info, token}
use combine.Error.Traits.{add_expected}
use combine.Stream.Core.{Stream}
use combine.Stream.Ops.{uncons}
use combine.Parser.Core.{Parser, Outcome, leaf, silent_error}

-- `Tracked::error.add_expected(info)`.
unfoldable pub expect : (S : Stream) → Info S.Token S.Range → Tracked S.Error → Tracked S.Error
unfolding add_expected
expect S info e = record e { error = add_expected S.parse_error info e.error }

module _ (S : Stream) where
  unfoldable pub any : Parser S S.Token
  unfolding leaf uncons
  any = leaf S (λ input. done (uncons S input)) silent_error

  module _ {A : Type 0} where
    unfoldable pub satisfied : S.Position → S.Input → Option A → Outcome S A
    satisfied position input (some a) = (commit_ok a, input)
    satisfied position input none = (peek_err (tracked (S.parse_error.empty position)), input)

    satisfy_token : (S.Token → Option A) → S.Position → Outcome S S.Token → Outcome S A
    unfolding satisfied
    satisfy_token predicate position (commit_ok c, input) = satisfied position input (predicate c)
    satisfy_token predicate position (peek_ok c, input) = satisfied position input (predicate c)
    satisfy_token predicate position (commit_err e, input) = (commit_err e, input)
    satisfy_token predicate position (peek_err e, input) = (peek_err e, input)

    unfoldable pub satisfy_impl : (S.Token → Option A) → S.Input → Outcome S A
    unfolding satisfy_token uncons
    satisfy_impl predicate input = satisfy_token predicate (S.position input) (uncons S input)

    unfoldable pub satisfy_map : (S.Token → Option A) → Parser S A
    unfolding satisfy_impl leaf
    satisfy_map predicate = leaf S (λ input. done (satisfy_impl predicate input)) silent_error

  unfoldable pub keep_if : (S.Token → Bool) → S.Token → Option S.Token
  keep_if predicate c = if predicate c then some c else none

  unfoldable pub satisfy : (S.Token → Bool) → Parser S S.Token
  unfolding satisfy_impl leaf keep_if
  satisfy predicate = leaf S (λ input. done (satisfy_impl (keep_if predicate) input)) silent_error

  module _ (eq : S.Token → S.Token → Bool) where
    unfoldable pub token_parser : S.Token → Parser S S.Token
    unfolding satisfy_impl leaf keep_if expect
    token_parser c =
        leaf S (λ input. done (satisfy_impl (keep_if λ t. eq t c) input)) (expect S (token c))

    -- `tokens.into_iter().any(|t| t == c)`.
    unfoldable pub contains : List S.Token → S.Token → Bool
    contains [] c = false
    contains (t ∷ ts) c = eq t c || contains ts c

    expect_all : List S.Token → Tracked S.Error → Tracked S.Error
    unfolding expect
    expect_all [] e = e
    expect_all (t ∷ ts) e = expect_all ts (expect S (token t) e)

    unfoldable pub one_of : List S.Token → Parser S S.Token
    unfolding satisfy_impl leaf keep_if contains expect_all
    one_of tokens =
        leaf S (λ input. done (satisfy_impl (keep_if (contains tokens)) input)) (expect_all tokens)

    unfoldable pub none_of : List S.Token → Parser S S.Token
    unfolding satisfy_impl leaf keep_if
    none_of tokens =
        leaf S (λ input. done (satisfy_impl (keep_if λ c. all (λ t. not (eq t c)) tokens) input))
          silent_error
