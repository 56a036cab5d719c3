-- ===== src/Parser/Sequence/Build.antt =====
-- src/parser/sequence.rs: the parsers built on tuples, `With`, `Skip` and `Between`.
use combine.Prelude.{done, ◌>>=◌}
use combine.Error.ParseResult
use combine.Stream.Core.{Stream}
use combine.Parser.Core.{Parser}
use combine.Parser.Combinator.{map, ignore}
use combine.Parser.Sequence.Tuple.{nil, cons, tuple}

module _ {S : Stream} {A B : Type 0} where
  -- `(p, q)`.
  unfoldable pub pair : Parser S A → Parser S B → Parser S (A × (B × Unit {0}))
  unfolding tuple
  pair p q = tuple p (cons q nil)

module _ {S : Stream} {A B : Type 0} where
  unfoldable pub with : Parser S A → Parser S B → Parser S B
  unfolding pair ignore map ParseResult.map
  with p q =
      let both = pair (ignore p) q in
      let base = map both (λ v. v.1.0) in
      record base {
        parse_lazy = λ input. do
          (r, input') ← both.parse_lazy input
          done (ParseResult.map (λ v. v.1.0) r, input');
      }

  unfoldable pub skip : Parser S A → Parser S B → Parser S A
  unfolding pair ignore map
  skip p q = map (pair p (ignore q)) (λ v. v.0)

module _ {S : Stream} {A B C : Type 0} where
  unfoldable pub between : Parser S A → Parser S B → Parser S C → Parser S C
  unfolding tuple map
  between open_parser close_parser p =
      map (tuple open_parser (cons p (cons close_parser nil))) (λ v. v.1.0)
