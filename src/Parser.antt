-- ===== src/Parser.antt =====
-- crates/shell-parser: the syntax tree is in Parser/Ast, the parser in Parser/Parse.
pub mod Ast
pub mod Parse
pub mod Total
pub mod Returns
pub mod Print
pub mod Spelling
pub mod RoundTrip
