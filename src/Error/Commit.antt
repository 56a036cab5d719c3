-- ===== src/Error/Commit.antt =====
-- src/error.rs: the methods of `Commit<T>`.
use combine.Prelude.{Bool, true, false, ok, err}
use combine.Error.Types.{
  Commit, commit, peek, ParseResult, commit_ok, peek_ok, commit_err, peek_err, StdParseResult,
}

module _ {A : Type 0} where
  unfoldable pub is_peek : Commit A → Bool
  is_peek (peek _) = true
  is_peek (commit _) = false

  unfoldable pub into_inner : Commit A → A
  into_inner (peek x) = x
  into_inner (commit x) = x

  unfoldable pub into_commit : Commit A → Commit A
  unfolding into_inner
  into_commit c = commit (into_inner c)

  unfoldable pub into_peek : Commit A → Commit A
  unfolding into_inner
  into_peek c = peek (into_inner c)

  unfoldable pub merge : Commit A → Commit A → Commit A
  unfolding into_commit
  merge (peek _) current = current
  merge (commit _) current = into_commit current

module _ {A B : Type 0} where
  unfoldable pub map : (A → B) → Commit A → Commit B
  map f (peek x) = peek (f x)
  map f (commit x) = commit (f x)

-- The branch of `combine` for input that was already committed to.
unfoldable pub committed_std : {B E : Type 0} → StdParseResult B E → StdParseResult B E
committed_std (ok (v, peek rest)) = ok (v, commit rest)
committed_std (ok (v, commit rest)) = ok (v, commit rest)
committed_std (err (peek e)) = err (commit e)
committed_std (err (commit e)) = err (commit e)

-- The branch of `combine_commit` for input that was already committed to.
unfoldable pub committed_result : {B E : Type 0} → ParseResult B E → ParseResult B E
committed_result (peek_ok v) = commit_ok v
committed_result (peek_err e) = commit_err e.error
committed_result (commit_ok v) = commit_ok v
committed_result (commit_err e) = commit_err e

module _ {A B E : Type 0} where
  -- `combine`.
  unfoldable pub combine_std : Commit A → (A → StdParseResult B E) → StdParseResult B E
  unfolding committed_std
  combine_std (commit x) f = committed_std (f x)
  combine_std (peek x) f = f x

  unfoldable pub combine_commit : Commit A → (A → ParseResult B E) → ParseResult B E
  unfolding committed_result
  combine_commit (commit x) f = committed_result (f x)
  combine_commit (peek x) f = f x
