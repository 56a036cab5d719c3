-- ===== src/Parser/Function.antt =====
-- src/parser/function.rs: functions as parsers.
use combine.Prelude.{done}
use combine.Error.Types.{StdParseResult}
use combine.Error.ParseResult.{from}
use combine.Stream.Core.{Stream}
use combine.Parser.Core.{Parser, leaf, silent_error}

-- `FnParser`: its `parse_lazy` calls the function.
unfoldable pub fn_parser :
    (S : Stream) {A : Type 0} → (S.Input → StdParseResult A S.Error × S.Input) → Parser S A
unfolding leaf from
fn_parser S f = leaf S (λ input. done (from (f input).0, (f input).1)) silent_error

-- `EnvParser`: its `parse_lazy` calls the function with a clone of the environment.
unfoldable env_parser :
    (S : Stream) {A E : Type 0}
    → E
    → (E → S.Input → StdParseResult A S.Error × S.Input)
    → Parser S A
unfolding leaf from
env_parser S env f = leaf S (λ input. done (from (f env input).0, (f env input).1)) silent_error
