-- ===== src/Repository.antt =====
-- internal/repository: the rows of the database (db/migrations) and the statements of the
-- repositories (db/queries and internal/repository/*.go), a child for each table.
pub mod Tables
pub mod Sessions
pub mod Cards
pub mod Quizzes
pub mod Attempts
pub mod Tokens
pub mod Codes
pub mod Accounts
pub mod Decks
