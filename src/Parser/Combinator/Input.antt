-- ===== src/Parser/Combinator/Input.antt =====
-- src/parser/combinator.rs: which parsers leave the input where they found it, and which errors
-- commit.
use combine.Prelude.{◌≡◌, refl, not, done}
use combine.Error.Types.{ParseResult, commit_ok, peek_ok, commit_err, peek_err}
use combine.Error.ParseResult.{is_ok}
use combine.Stream.Core.{Stream, IsResettable}
use combine.Parser.Core.{Parser}
use combine.Parser.Core.Fresh.{parse_fresh, parse_fresh-inv, reset_then-resettable}
use combine.Parser.Combinator.{look_ahead, not_followed_by, peeked, negate}

is_ok-negate :
    (S : Stream) {A : Type 0} (r : ParseResult A S.Error) (input : S.Input)
    → is_ok (negate S r input) ≡ not (is_ok r)
unfolding is_ok negate
is_ok-negate S (commit_ok x) input = refl
is_ok-negate S (peek_ok x) input = refl
is_ok-negate S (commit_err e) input = refl
is_ok-negate S (peek_err e) input = refl

-- What a result becomes that was only looked at: a value commits to nothing, an error stays.
abbrev pub Looks : {A E : Type 0} → ParseResult A E → ParseResult A E → Type 0
Looks (commit_ok x) s = s ≡ peek_ok x
Looks (peek_ok x) s = s ≡ peek_ok x
Looks (commit_err e) s = s ≡ commit_err e
Looks (peek_err e) s = s ≡ peek_err e

Looks-peeked : {A E : Type 0} (r : ParseResult A E) → Looks r (peeked r)
unfolding peeked
Looks-peeked (commit_ok x) = refl
Looks-peeked (peek_ok x) = refl
Looks-peeked (commit_err e) = refl
Looks-peeked (peek_err e) = refl

module _ {S : Stream} {A : Type 0} (resettable : IsResettable S) (p : Parser S A) where
  -- On a stream that honours its checkpoints `look_ahead` leaves the input as it was. It gives the value
  -- of its parser with nothing committed, whether that committed or not, and each error as it is.
  pub look_ahead-keeps_input :
      (input input' : S.Input) (r : ParseResult A S.Error)
      → p.parse_lazy input ≡ done (r, input')
      → (s : ParseResult A S.Error) × ((look_ahead p).parse_lazy input ≡ done (s, input))
        × Looks r s
  unfolding look_ahead
  look_ahead-keeps_input input input' r ran =
      (peeked r, rw (ran, reset_then-resettable S resettable), Looks-peeked r)

  -- On a stream that honours its checkpoints `not_followed_by` leaves the input as it was, and succeeds exactly where its
  -- parser fails, whether that committed or not.
  pub not_followed_by-negates :
      (input input' : S.Input) (r : ParseResult A S.Error)
      → parse_fresh p input ≡ done (r, input')
      → (s : ParseResult (Unit {0}) S.Error) × (parse_fresh (not_followed_by p) input
          ≡ done (s, input))
        × (is_ok s ≡ not (is_ok r))
  unfolding not_followed_by parse_fresh
  not_followed_by-negates input input' r ran =
      let (st, stepped) = parse_fresh-inv p input input' r ran in
      (negate S r input, rw (stepped, reset_then-resettable S resettable), is_ok-negate S r input)
