-- ===== src/Parser/Sequence.antt =====
-- src/parser/sequence.rs: tuples of parsers, run one after another, and the parsers built on them.
pub mod Errors
pub mod Tuple
pub mod Build
pub mod Safe
pub mod Struct
pub mod Then
