-- ===== src/Error/ParseResult.antt =====
-- src/error.rs: the methods of `ParseResult<T, E>`, its conversions from and to the standard
-- library's `Result`, and the early return of the macro `ctry!`.
use combine.Prelude.{Bool, true, false, not, Result, ok, err}
use combine.Error.Types.{
  Commit, commit, peek, Tracked, tracked, ParseResult, commit_ok, peek_ok, commit_err, peek_err,
  StdParseResult,
}
use combine.Error.Commit.{committed_result}

module _ {A E : Type 0} where
  unfoldable pub is_ok : ParseResult A E → Bool
  is_ok (commit_ok _) = true
  is_ok (peek_ok _) = true
  is_ok (commit_err _) = false
  is_ok (peek_err _) = false

  unfoldable pub is_err : ParseResult A E → Bool
  unfolding is_ok
  is_err r = not (is_ok r)

  -- `ResultExt::committed`.
  unfoldable pub committed : Result A E → ParseResult A E
  committed (ok x) = commit_ok x
  committed (err e) = commit_err e

  -- `into_result` and `Into<StdParseResult2<O, E>>`.
  unfoldable pub into_result : ParseResult A E → StdParseResult A E
  into_result (commit_ok t) = ok (t, commit tt)
  into_result (peek_ok t) = ok (t, peek tt)
  into_result (commit_err e) = err (commit (tracked e))
  into_result (peek_err e) = err (peek e)

  -- `From<StdParseResult2<O, E>>`.
  unfoldable pub from : StdParseResult A E → ParseResult A E
  from (ok (t, commit u)) = commit_ok t
  from (ok (t, peek u)) = peek_ok t
  from (err (commit e)) = commit_err e.error
  from (err (peek e)) = peek_err e

  -- `Into<Result<Commit<T>, Commit<Tracked<E>>>>`.
  unfoldable pub into_commit_result : ParseResult A E → Result (Commit A) (Commit (Tracked E))
  into_commit_result (commit_ok t) = ok (commit t)
  into_commit_result (peek_ok t) = ok (peek t)
  into_commit_result (commit_err e) = err (commit (tracked e))
  into_commit_result (peek_err e) = err (peek e)

module _ {A B E : Type 0} where
  unfoldable pub and_then : ParseResult A E → (A → ParseResult B E) → ParseResult B E
  unfolding committed_result
  and_then (commit_ok t) f = committed_result (f t)
  and_then (peek_ok t) f = f t
  and_then (commit_err e) f = commit_err e
  and_then (peek_err e) f = peek_err e

  unfoldable pub map : (A → B) → ParseResult A E → ParseResult B E
  map f (commit_ok t) = commit_ok (f t)
  map f (peek_ok t) = peek_ok (f t)
  map f (commit_err e) = commit_err e
  map f (peek_err e) = peek_err e

unfoldable pub map_err : {A E E' : Type 0} → (E → E') → ParseResult A E → ParseResult A E'
map_err f (commit_ok t) = commit_ok t
map_err f (peek_ok t) = peek_ok t
map_err f (commit_err e) = commit_err (f e)
map_err f (peek_err e) = peek_err (record { error = f e.error; offset = e.offset })
