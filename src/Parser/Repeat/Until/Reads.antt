-- ===== src/Parser/Repeat/Until/Reads.antt =====
-- src/parser/repeat.rs: `take_until` reads up to where its end starts.
use combine.Prelude.{
  ℕ, zero, suc, ◌<◌, ◌≡◌, refl, ◌∙◌, ap, Bool, true, false, List, [], ◌∷◌, ◌++◌, length,
  append_assoc, append-nil, done, arith,
}
use combine.Error.Types.{Commit, commit, peek, Tracked, commit_ok, peek_err}
use combine.Error.Commit.{merge}
use combine.Stream.Core.{Stream, IsResettable}
use combine.Stream.Ops.{uncons}
use combine.Parser.Core.{Parser, first_mode, parse_mode}
use combine.Parser.Core.Fresh.{parse_fresh, reset_then-resettable}
use combine.Parser.Repeat.Iter.{vec, ok_value}
use combine.Parser.Repeat.Until.{
  take_until, until_loop, until_round, until_end, until_token, UntilStep,
}

module _ {S : Stream} {B : Type 0} (end_parser : Parser S B) where
  -- The end fails with nothing committed before each of the tokens, and succeeds behind them, at
  -- `last`, committed or not.
  pub data Reads : S.Input → end_parser.PartialState → Bool → List S.Token → S.Input → Type 0 where
    ends :
        {input input' : S.Input} {st st' : end_parser.PartialState} {committed : Bool} (v : B)
        → end_parser.parse_mode_impl first_mode input st ≡ done (ok_value committed v, input', st')
        → Reads input st committed [] input
    reads :
        {input input' next last : S.Input} {st st' : end_parser.PartialState} {e : Tracked S.Error}
        {committed : Bool} {x : S.Token} {xs : List S.Token}
        → end_parser.parse_mode_impl first_mode input st ≡ done (peek_err e, input', st')
        → uncons S input ≡ (commit_ok x, next)
        → Reads next st' committed xs last
        → Reads input st committed (x ∷ xs) last

  -- A parse that has read a token has committed.
  unfoldable pub committed_by : Bool → List S.Token → Bool
  committed_by committed [] = committed
  committed_by committed (x ∷ xs) = true

  commitment : Bool → Commit (Unit {0})
  commitment true = commit tt
  commitment false = peek tt

  both : Bool → Bool → Bool
  both true b = true
  both false b = b

  module _ (resettable : IsResettable S) where
    end-result :
        (before committed : Bool) (v : B) (input now : S.Input) (st : end_parser.PartialState)
        (seen : List S.Token)
        (more : end_parser.PartialState
          → List S.Token
          → S.Input
          → UntilStep (vec S.Token) end_parser)
        → until_round
            (vec S.Token)
            end_parser
            seen
            (commitment before)
            (S.checkpoint input)
            more
            (ok_value committed v, now, st)
          ≡ done (ok_value (both before committed) seen, input, ([], st))
    unfolding until_round until_end merge commitment both
    end-result true true v input now st seen more = rw (reset_then-resettable S resettable)
    end-result true false v input now st seen more = rw (reset_then-resettable S resettable)
    end-result false true v input now st seen more = rw (reset_then-resettable S resettable)
    end-result false false v input now st seen more = rw (reset_then-resettable S resettable)

    both-true : (before : Bool) → both before true ≡ true
    unfolding both
    both-true true = refl
    both-true false = refl

    token-result :
        (before : Bool) (input now next : S.Input) (e : Tracked S.Error)
        (st : end_parser.PartialState) (seen : List S.Token) (x : S.Token)
        (more : end_parser.PartialState
          → List S.Token
          → S.Input
          → UntilStep (vec S.Token) end_parser)
        → uncons S input ≡ (commit_ok x, next)
        → until_round
            (vec S.Token)
            end_parser
            seen
            (commitment before)
            (S.checkpoint input)
            more
            (peek_err e, now, st)
          ≡ more st (seen ++ x ∷ []) next
    unfolding until_round until_token
    token-result before input now next e st seen x more read =
        rw (reset_then-resettable S resettable, read)

    loop-reads :
        (fuel : ℕ) (input last : S.Input) (st : end_parser.PartialState) (before committed : Bool)
        (seen xs : List S.Token)
        → Reads input st committed xs last
        → length xs < fuel
        → (st' : List S.Token × end_parser.PartialState) × (until_loop
              (vec S.Token)
              end_parser
              fuel
              first_mode
              (commitment before)
              input
              seen
              st
            ≡ done (ok_value (both before (committed_by committed xs)) (seen ++ xs), last, st'))
    unfolding until_loop parse_mode committed_by commitment both
    loop-reads zero input last st before committed seen xs runs enough =
        absurd (omega (arith, enough))
    loop-reads (suc fuel) input last st before committed seen []
          (ends {input' = now} {st' = st'} v ran) enough =
        let more = λ (s' : end_parser.PartialState) (elements : List S.Token) (i : S.Input).
          until_loop (vec S.Token) end_parser fuel first_mode (commit tt) i elements s' in
        (
          ([], st'),
          rw (ran, append-nil seen) (end-result before committed v input now st' seen more),
        )
    loop-reads (suc fuel) input last st before committed seen (x ∷ xs)
          (reads {input' = now} {next = next} {st' = s} {e = e} failed read runs) enough =
        let (st', ended) =
          loop-reads fuel next last s true committed (seen ++ x ∷ []) xs runs
            (omega (arith, enough)) in
        let more = λ (s' : end_parser.PartialState) (elements : List S.Token) (i : S.Input).
          until_loop (vec S.Token) end_parser fuel first_mode (commit tt) i elements s' in
        (
          st',
          rw failed (
              token-result before input now next e s seen x more read
              ∙ ended
              ∙ ap (λ r. done (r, last, st'))
                  (rw (both-true before, append_assoc seen (x ∷ []) xs))),
        )

    -- Where a stream honours its checkpoints, with fuel above the number of tokens before the end,
    -- `take_until` ends, gives those tokens, and leaves the input where the end starts; it has committed
    -- where it has read a token or the end has committed.
    pub take_until-reads :
        (fuel : ℕ) (input last : S.Input) (committed : Bool) (xs : List S.Token)
        → Reads input end_parser.default committed xs last
        → length xs < fuel
        → parse_fresh (take_until (vec S.Token) end_parser fuel) input
          ≡ done (ok_value (committed_by committed xs) xs, last)
    unfolding take_until parse_fresh commitment both
    take_until-reads fuel input last committed xs runs enough =
        let (st', ended) =
          loop-reads fuel input last end_parser.default false committed [] xs runs enough in
        rw ended
