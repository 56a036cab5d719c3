-- ===== src/Parser/Char.antt =====
-- src/parser/char.rs: the parsers of characters. A stream's token is a character by its code `code`;
-- the tests of a character's Unicode class are arguments.
use combine.Prelude.{ℕ, Bool, ◌&&◌, ◌||◌, List, ◌==◌, leb, String}
use combine.Error.Types.{static}
use combine.Stream.Core.{Stream}
use combine.Parser.Core.{Parser}
use combine.Parser.Combinator
use combine.Parser.Combinator.{no_partial}
use combine.Parser.Report.{expected_parser}
use combine.Parser.Token.{satisfy, token_parser}
use combine.Parser.Tokens.{tokens_cmp}
use combine.Parser.Sequence.Build.{with}
use combine.Parser.Repeat.Count.{skip_many}

-- `satisfy(f).expected(text)`.
unfoldable pub class : (S : Stream) → (S.Token → Bool) → String → Parser S S.Token
unfolding satisfy expected_parser
class S f text = expected_parser (satisfy S f) (static text)

-- `char::is_digit`, for the radixes 8, 10 and 16.
abbrev pub in_range : ℕ → ℕ → ℕ → Bool
in_range low high c = leb low c && leb c high

module _ (S : Stream) (code : S.Token → ℕ) where
  unfoldable pub char : S.Token → Parser S S.Token
  unfolding token_parser
  char c = token_parser S (λ a b. code a == code b) c

  unfoldable pub digit : Parser S S.Token
  unfolding class
  digit = class S (λ c. in_range 48 57 (code c)) "digit"

  unfoldable pub newline : Parser S S.Token
  unfolding class
  newline = class S (λ c. code c == 10) "lf newline"

  unfoldable pub crlf : Parser S S.Token
  unfolding expected_parser no_partial satisfy with newline
  crlf =
      expected_parser (no_partial (with (satisfy S (λ c. code c == 13)) newline))
        (static "crlf newline")

  unfoldable pub tab : Parser S S.Token
  unfolding class
  tab = class S (λ c. code c == 9) "tab"

  unfoldable pub oct_digit : Parser S S.Token
  unfolding class
  oct_digit = class S (λ c. in_range 48 55 (code c)) "octal digit"

  unfoldable pub hex_digit : Parser S S.Token
  unfolding class
  hex_digit =
      class S (λ c. in_range 48 57 (code c) || in_range 65 70 (code c) || in_range 97 102 (code c))
        "hexadecimal digit"

  -- `str` is the text with the characters `s`.
  unfoldable pub string_cmp : {Str : Type 0} → Str → List ℕ → String → (ℕ → ℕ → Bool) → Parser S Str
  unfolding tokens_cmp expected_parser Combinator.map
  string_cmp str s text cmp =
      expected_parser (Combinator.map (tokens_cmp S (λ l r. cmp l (code r)) s) (λ _. str))
        (static text)

  unfoldable pub string : {Str : Type 0} → Str → List ℕ → String → Parser S Str
  unfolding string_cmp
  string str s text = string_cmp str s text (λ l r. l == r)

module _ (S : Stream)
    (is_whitespace is_uppercase is_lowercase is_alphanumeric is_alphabetic : S.Token → Bool) where
  unfoldable pub space : Parser S S.Token
  unfolding class
  space = class S is_whitespace "whitespace"

  unfoldable pub spaces : ℕ → Parser S (Unit {0})
  unfolding expected_parser skip_many space
  spaces fuel = expected_parser (skip_many fuel space) (static "whitespaces")

  unfoldable pub upper : Parser S S.Token
  unfolding class
  upper = class S is_uppercase "uppercase letter"

  unfoldable pub lower : Parser S S.Token
  unfolding class
  lower = class S is_lowercase "lowercase letter"

  unfoldable pub alpha_num : Parser S S.Token
  unfolding class
  alpha_num = class S is_alphanumeric "letter or digit"

  unfoldable pub letter : Parser S S.Token
  unfolding class
  letter = class S is_alphabetic "letter"
