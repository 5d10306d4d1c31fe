-- ===== src/Formula.antt =====
-- The formula engine: src/aegis/formula. A string becomes tokens (Lexer), these their postfix order
-- (Parser), and that a number (Evaluator). Standard has the functions that a
-- formula may call, Resolver the values of its variables.
pub mod Token
pub mod Lexer
pub mod Functions
pub mod Parser
pub mod Evaluator
pub mod Standard
pub mod Resolver
pub mod Measure
