-- ===== src/Lexer.antt =====
-- crates/shell-lexer/src/lexer.rs and token.rs: the tokenizer of the shell. The definitions are in
-- Lexer/Token, Lexer/Cursor, Lexer/Quoted and Lexer/Scan; the other children hold proofs.
pub mod Token
pub mod Cursor
pub mod Quoted
pub mod Scan
pub mod Consumes
pub mod Total
pub mod Spans
pub mod RoundTrip
pub mod Escapes
