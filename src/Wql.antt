-- ===== src/Wql.antt =====
-- runtime/src/wql: the Web Query Language, from the tokens of a query to the rows that it returns.
pub mod Syntax
pub mod Names
pub mod Chars
pub mod Tokenizer
pub mod Parser
pub mod Written
pub mod Planner
pub mod Executor
pub mod Pipeline
pub mod Conditions
pub mod Rows
pub mod Columns
mod Examples
