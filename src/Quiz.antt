-- ===== src/Quiz.antt =====
-- internal/service/quiz.go: grading and the validation of questions, attempts, and quizzes and
-- questions as their owner edits them.
pub mod Grading
pub mod Linked
pub mod Attempts
pub mod Questions
pub mod Generation
pub mod Ayat
