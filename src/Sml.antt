-- ===== src/Sml.antt =====
-- The language SML of src/sml/: its lexer and parser, templates and the runtime.
pub mod Token
pub mod Cursor
pub mod Lexer
pub mod Ast
pub mod Number
pub mod Parser
pub mod Render
pub mod Runtime
