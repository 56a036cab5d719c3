-- ===== src/Lib.antt =====
-- combine is a parser combinator library. A stream gives tokens one at a time and can be taken back
-- to a checkpoint; a parser is run on a stream and gives a value or an error, and says whether it
-- committed to the input; combinators build parsers from parsers. A parser may run on an input that
-- is not all there, and is then resumed later from its partial state.
--
-- The parts, and where they are modelled:
--   src/error.rs             Error: `Commit`, `ParseResult` (Error/Types, Commit, ParseResult), the
--                            traits of errors (Error/Traits), and the two errors that the library
--                            gives to slices and strings (Error/Unexpected, Error/StringError).
--   src/stream/mod.rs        Stream: the stream traits as one record (Stream/Core), the functions over
--                            them (Stream/Ops), `&[T]` (Stream/Slice), range streams and the functions
--                            over them (Stream/Range), slices as such (Range/Slices), the streams that
--                            wrap a stream (Range/Wrappers), iterators (Stream/Iterator), and
--                            `&str` (Stream/Str: Boundary, While, Lawful). The function `decode` is in Parser/Decode.
--   src/stream/state.rs      Stream/Range/Wrappers.
--   src/stream/buf_reader.rs Stream/BufReader: the buffers of a decoder over a blocking reader, and what a
--                            decoder relies on in them (Contract); over readers that are polled
--                            (Awaited, Awaited/Contract); `BufReader` as a reader (Blocking). What
--                            they call of the crate bytes and of readers is in Stream/Bytes.
--   src/stream/decoder.rs    Stream/Decoder, with the loop of the `decode!` macros of
--                            src/stream/mod.rs: against a decoder without a buffer (Bufferless, Within,
--                            Refines), its rounds with `take_while` (Rounds), what it then gives
--                            (TakeWhile), and where the reader fails (Resumes).
--   src/stream/read.rs       Stream/Reader.
--   src/lib.rs               Parser/Macro: what `parser!` declares.
--   src/stream/easy.rs       Stream/Easy: the errors that list what was expected, their merge
--                            (Merge), their maps, and the stream that only converts errors
--                            (Convert, Ranges, Maps).
--   src/stream/buffered.rs   Stream/Buffered: the stream, the tokens that it can go back to (Window),
--                            and what its buffer holds (Invariant).
--   src/stream/position.rs   Stream/Position: source positions. Stream/Positioned: the positioners, and
--                            a stream beside one; its `uncons_while` over slices (Slices), which
--                            stands on that of slices with a predicate that has a state
--                            (Stream/Slice/Closure).
--   src/parser/mod.rs        Parser/Core: a parser is a record of its methods; `leaf` fills in the
--                            provided ones for a parser with `parse_lazy`, `resumable` for a parser
--                            with `parse_mode_impl`. Parser/Core: the entry points (Entry),
--                            `by_ref` and `boxed` (Forward), and one parse from the start (Fresh).
--   src/parser/function.rs   Parser/Function.
--   src/parser/token.rs      Parser/Token and Parser/Tokens.
--   src/parser/combinator.rs Parser/Combinator: the parsers that change a result; those that wrap a
--                            parser (Wrap), the one that reads again what was read (Recognize), those
--                            that make or pass on a parser when they run (Factory), what is kept by
--                            those that hide their state (Hidden), and what `boxed` does to `attempt`
--                            (Boxed).
--   src/parser/error.rs      Parser/Report.
--   src/parser/choice.rs     Parser/Choice: over a tuple, over an array (Array), and `dispatch!`.
--   src/parser/sequence.rs   Parser/Sequence: what a tuple reports (Errors), how it runs (Tuple), and
--                            the parsers built on it (Build, Struct), and those whose second parser
--                            is made from the value of the first (Then).
--   src/parser/repeat.rs     Parser/Repeat: the loop (Iter, Iter/Runs), `many` and `many1` (Many), the counted
--                            parsers and those that skip (Count), `sep_by` and `sep_by1` (SepBy),
--                            `sep_end_by` (SepEnd), the chains (Chain), `take_until` and
--                            `repeat_until` (Until), `escaped` (Escaped) and `iterate` (Iterate).
--   src/parser/range.rs      Parser/Range: the parsers that give a range, and how they are resumed;
--                            `take_until_range` and `take_fn` (Until), `take_while` over slices
--                            (Take), resumed (Resume), over a slice that comes in chunks (Feed), and
--                            over one that may be partial (Maybe; with `decode`, Parser/Decode/Maybe).
--   src/parser/regex.rs      Parser/Regex: groups against matches in Groups.
--   src/parser/char.rs       Parser/Char.
--   src/parser/byte.rs       Parser/Byte: the classes of bytes, numbers (Num), the search for a needle
--                            (Search).
--
-- A function that changes its input or its state through `&mut` takes it as an argument and returns
-- it beside the result. A run is `Run`: a value, a panic, or fuel that ran out. Macros that are
-- unrolled over a tuple of parsers are recursions over a list of them. Numbers are natural; an
-- `ErrorOffset` is a `u8`, and its sums and differences saturate or wrap as the code has it. The
-- equality of tokens and the texts of formatted messages are arguments.
--
-- Fuel: the loop of `many` has no bound in the program, since a parser that succeeds without reading
-- keeps it going for ever; so it is with the loops of the chains, `escaped` and `repeat_until`. The
-- loops of `take_until`, `take_until_range` and `recognize` read a token in each round, and that in
-- `slice_uncons_while` needs no more rounds than the slice has items. All take fuel. The theorems on
-- `many`, `sep_by`, `take_until`, the chains, `recognize` and `slice_uncons_while` say which fuel is
-- enough.
--
-- The loop of `decode!` ends only if the reader does; its fuel bounds the rounds, and the theorems say
-- how many are enough. A task that awaits a reader polls it at most as often as its
-- fuel says. `BufReader::read` calls itself in one branch, so that it takes fuel too.
--
-- The crates bytes, regex, memchr and futures or tokio, the readers of std, and the Unicode classes of
-- characters are arguments, with what their docs say as laws where a theorem needs them.
--
-- Not modelled: the text of errors, and `AsyncWrite` of `BufReader`, which forwards to the reader.
-- `debug_assert!` is left out, but where it guards what `then` keeps.
pub mod Prelude
pub mod Error
pub mod Stream
pub mod Parser
