-- ===== src/Checks.antt =====
-- Tests of the definitions, and examples of the theorems, on concrete rows.
pub mod Rows
pub mod Study
pub mod Quiz
pub mod Generation
pub mod Ayat
pub mod Auth
pub mod Decks
pub mod Accounts
