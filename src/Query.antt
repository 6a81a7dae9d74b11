-- ===== src/Query.antt =====
-- The findings query language: internal/query (query.go, term.go, match.go).
pub mod Token
pub mod Lex
pub mod Term
pub mod Parse
pub mod Match
pub mod Eval
