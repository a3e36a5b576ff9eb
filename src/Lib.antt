-- ===== src/Lib.antt =====
-- The verification library of backend-quiz, the backend of a flashcard and quiz application.
--
-- The program. HTTP handlers (internal/handler) call services (internal/service), which read and
-- write rows through repositories (internal/repository, over queries that sqlc generates) and
-- group writes in transactions (internal/repository/uow.go). The study service runs the sessions
-- in which a user reviews the due cards of a deck; the client computes the FSRS state of a card,
-- and the server checks and stores it. The quiz service keeps quizzes and their questions, and
-- runs the attempts at them, whose answers can review a linked card. The auth service gives a
-- session a refresh token, which is exchanged for a new one at each use, verifies emails by codes,
-- and registers, logs in, resets and deletes accounts.
--
-- The files.
--   Common          Boolean tests, lists with the clauses of SQL, Go's int and its conversions
--                   (int8, int16, int32, written with their wrap-around), strings.
--   Domain          internal/domain/{errors,card,review,study,deck,quiz,auth}.go, and the requests
--                   and responses of internal/dto/{study,quiz,deck,card,auth}.go.
--   Db              internal/repository/uow.go: `exec` is a statement on `querier`, `transact` is
--                   PgxUnitOfWork.Do. Db.Rules and Db.Compose are the rules for what is read-only,
--                   all or nothing, or keeps an invariant, and for how that composes.
--   Repository      internal/repository/{study_session,review,card,deck,quiz,quiz_attempt}.go and
--                   the reads of user.go, over the rows of Repository.Tables, with the
--                   statements of db/queries; refresh_token.go in Repository.Tokens,
--                   email_verification.go in Repository.Codes, login_attempt.go,
--                   password_reset_token.go and the writes of user.go in Repository.Accounts.
--   Study           internal/service/study.go: start_session (StartSession), submit_review
--                   (SubmitReview), batch_review (BatchReview), end_session (EndSession).
--   Quiz            internal/service/quiz.go: Quiz.Questions has the owner's methods, Quiz.Attempts
--                   StartAttempt, SubmitAnswer, CompleteAttempt and GetAttempt, Quiz.Linked
--                   applyFSRSFromQuiz, Quiz.Generation GenerateFromDeck, Quiz.Ayat
--                   GenerateAyatQuiz (Quiz.Ayat.Request), Quiz.Grading gradeAnswer and
--                   validateQuestionOptions.
--   Decks           internal/service/deck.go: create_deck (Create), own_deck (Get), update_deck,
--                   delete_deck, share_deck, unshare_deck, clone_deck, export_deck, import_deck.
--   Cards           internal/service/card.go: create_card (Create), batch_create_cards, update_card,
--                   delete_card, reset_card (ResetFSRS), suspend_card (Suspend), list_own_cards.
--   Auth            internal/service/auth.go: refresh_token (RefreshTokenWithMeta), log_out
--                   (Logout), log_out_all (LogoutAll) and revoke_session (RevokeSession);
--                   Auth.Codes has verify_email (VerifyEmail) and resend_verification
--                   (ResendVerification), Auth.Accounts login (LoginWithMeta), register_account
--                   (RegisterWithMeta) and find_or_create_oauth_user, Auth.Reset reset_password,
--                   forgot_password and change_password, Auth.Deletion the deletion of accounts,
--                   and Auth.Passwords pkg/password/policy.go.
--   Handler         internal/handler/response.go: handle_error (HandleError); new_params
--                   (NewParams of pkg/pagination/pagination.go).
--   Checks          tests and examples on concrete rows.
--
-- State and errors. A service method is a function of a world: the rows, the transaction of the
-- request, and a list of flags that says which statements the server refuses. A theorem without a
-- condition on the world holds whatever is refused at whatever point. Where an error of a call is
-- dropped (applyFSRSFromQuiz, the read of an existing answer, the audit log), the model drops it
-- too, and a refused statement in a transaction aborts it as PostgreSQL does. An id is a number, and
-- gen_random_uuid() is the counter `fresh_id`. A time is in milliseconds; a request reads the clock
-- once. A float64 is its number of millionths, and its rounding to a REAL column is a parameter.
-- Go's int is a mathematical integer, since no sum here comes near 2 ^ 63; the conversions to the
-- columns' types wrap around. The JSON of a column is kept as it was sent.
--
-- Parameters. `Runtime` holds encoding/json at the types in use and the case tables of package
-- unicode; `AuthEnv`, `CodeEnv` and `AccountEnv` the hash, bcrypt, the signature, the random
-- source, the policies and whether mail is sent; share codes, json.MarshalIndent, PostgreSQL's
-- ILIKE, the shuffles, the order of a map, the other calls of rand, fmt and sort.Slice are
-- arguments; two theorems assume that the shuffles permute, one that JSON options come back as
-- they were, two that "true" and "false" are their own lower case, and one that Intn is below
-- its argument. That gen_random_uuid() draws an id that is not in use is a condition where a
-- theorem needs it. All loops are structural recursions over a list or a number of rounds, so
-- there is no fuel. A panic is `none`, or an error without a write.
--
-- Not modelled: profiles, goals, statistics, media, RAG, the rest of HTTP, configuration and
-- workers; paged lists, which only read; concurrent requests, which the model takes one after the
-- other.
pub mod Common
pub mod Domain
pub mod Db
pub mod Repository
pub mod Study
pub mod Quiz
pub mod Auth
pub mod Decks
pub mod Cards
pub mod Handler
pub mod Checks
