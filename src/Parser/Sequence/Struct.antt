-- ===== src/Parser/Sequence/Struct.antt =====
-- src/parser/sequence.rs: `struct_parser!`, which runs its parsers as a tuple and makes a struct from
-- the values of those that are not written `_`.
use combine.Prelude.{Bool, true, false}
use combine.Stream.Core.{Stream}
use combine.Parser.Core.{Parser}
use combine.Parser.Combinator.{map}
use combine.Parser.Sequence.Tuple.{Parsers, nil, cons, Outputs, tuple}

-- The fields after the first: whether each is kept, and its parser.
pub data Fields (S : Stream) : Type 1 where
  no_fields : Fields S
  field : {A : Type 0} → Bool → Parser S A → Fields S → Fields S

-- The values with the field's, if it is kept.
abbrev pub KeptField : Bool → Type 0 → Type 0 → Type 0
KeptField true A B = A × B
KeptField false A B = B

keep_field : {A B : Type 0} (keep : Bool) → A → B → KeptField keep A B
keep_field true a b = (a, b)
keep_field false a b = b

module _ {S : Stream} where
  -- `seq_parser_expr!` and `seq_tuple_parser_impl!`.
  unfoldable pub parser_expr : Fields S → Parsers S
  parser_expr no_fields = nil
  parser_expr (field _ p fs) = cons p (parser_expr fs)

  -- The values that the struct is made from.
  abbrev pub Kept : Fields S → Type 0
  Kept no_fields = Unit
  Kept (field {A} keep p fs) = KeptField keep A (Kept fs)

  -- `seq_parser_pattern!` with `seq_parser_impl!`, and `seq_tuple_extract!`.
  unfoldable pub extract : (fs : Fields S) → Outputs (parser_expr fs) → Kept fs
  unfolding parser_expr keep_field
  extract no_fields v = tt
  extract (field keep p fs) (a, v) = keep_field keep a (extract fs v)

  -- `make` is the struct's constructor.
  unfoldable pub struct_parser :
      {A B : Type 0} (keep : Bool) (p : Parser S A) (fs : Fields S)
      → (KeptField keep A (Kept fs) → B)
      → Parser S B
  unfolding tuple map extract parser_expr
  struct_parser keep p fs make =
      map (tuple p (parser_expr fs)) (λ v. make (extract (field keep p fs) v))
