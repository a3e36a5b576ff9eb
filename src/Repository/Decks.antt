-- ===== src/Repository/Decks.antt =====
-- internal/repository/deck.go and db/queries/decks.sql: decks and their shares. The rows of other
-- tables that a deck's deletion takes along are those of the foreign keys in db/migrations.
pub mod Laws
use backend_quiz.Common.{
  ℕ, ◌+◌, ◌==◌, Bool, true, false, Option, none, some, List, [], ◌∷◌, ◌++◌, if◌then◌else◌, is_some,
  select_one, select_where, update_where, delete_where, length,
}
use backend_quiz.Common.{ℤ, pos, int32}
use backend_quiz.Common.Text.{Text, text_eq}
use backend_quiz.Domain.{database}
use backend_quiz.Domain.Card.{Env, Card, ReviewLog}
use backend_quiz.Domain.Study.{StudySession}
use backend_quiz.Domain.Deck.{Deck, DeckShare}
use backend_quiz.Domain.Quiz.{Quiz, QuizQuestion}
use backend_quiz.Db.{M, pure, raise, exec, query, modify, transact, ◌>>=◌, ◌>>◌}
use backend_quiz.Repository.Tables.{Tables, or_not_found}
use backend_quiz.Repository.Quizzes.{int_to_nullable}
use backend_quiz.Repository.Cards.{in_deck, order_cards, new_card}

abbrev pub is_deck : ℕ → Deck → Bool
is_deck id d = d.id == id

-- DeckRepository.GetByID
unfoldable pub get_deck : ℕ → M Tables Deck
get_deck id = do row ← query (λ t. select_one (is_deck id) t.decks); or_not_found row

-- DeckRepository.Create: the row that is returned has the defaults of the table
unfoldable pub create_deck_row : Env → Deck → M Tables Deck
create_deck_row env deck = exec λ t.
    let row = record deck {
      id = t.fresh_id;
      is_archived = false;
      new_cards_per_day = int_to_nullable deck.new_cards_per_day;
      position = int32 deck.position;
      created_at = env.now;
      updated_at = env.now;
    } in
    (row, record t { decks = t.decks ++ row ∷ []; fresh_id = t.fresh_id + 1 })

-- COALESCE
abbrev pub coalesce : Option ℤ → Option ℤ → Option ℤ
coalesce none old = old
coalesce (some v) old = some v

-- the columns that UpdateDeck writes
abbrev pub write_deck : Env → Deck → Deck → Deck
write_deck env deck row = record row {
  name = deck.name;
  description = deck.description;
  is_archived = deck.is_archived;
  new_cards_per_day = coalesce (int_to_nullable deck.new_cards_per_day) row.new_cards_per_day;
  position = int32 deck.position;
  updated_at = env.now;
}

-- an UPDATE or INSERT with RETURNING of which the error pgx.ErrNoRows is passed on as it is
abbrev pub or_error : {A : Type 0} → Option A → M Tables A
or_error none = raise database
or_error (some a) = pure a

-- DeckRepository.Update
unfoldable pub update_deck_row : Env → Deck → M Tables Deck
update_deck_row env deck = do
  row ← exec λ t.
      let rows = update_where (is_deck deck.id) (write_deck env deck) t.decks in
      (select_one (is_deck deck.id) rows, record t { decks = rows })
  or_error row

abbrev pub points_to : ℕ → Option ℕ → Bool
points_to id none = false
points_to id (some i) = i == id

-- a log goes with its card
abbrev pub log_in_deck : ℕ → List Card → ReviewLog → Bool
log_in_deck id cards l =
    is_some (select_one (λ c. c.id == l.card_id) (select_where (in_deck id) cards))

abbrev pub question_of_deck : ℕ → List Card → Option ℕ → Bool
question_of_deck id cards none = false
question_of_deck id cards (some i) =
    is_some (select_one (λ c. c.id == i) (select_where (in_deck id) cards))

-- DeckRepository.Delete: ON DELETE CASCADE from shares, cards and their logs, ON DELETE SET NULL
-- from sessions, quizzes and, at the cards, questions
unfoldable pub delete_deck_row : ℕ → M Tables (Unit {0})
delete_deck_row id = modify λ t. record t {
  decks = delete_where (is_deck id) t.decks;
  deck_shares = delete_where (λ s. s.deck_id == id) t.deck_shares;
  cards = delete_where (in_deck id) t.cards;
  review_logs = delete_where (log_in_deck id t.cards) t.review_logs;
  study_sessions =
      update_where (λ s. points_to id s.deck_id) (λ s. record s { deck_id = none })
        t.study_sessions;
  quizzes = update_where (λ q. points_to id q.deck_id) (λ q. record q { deck_id = none }) t.quizzes;
  quiz_questions =
      update_where (λ q. question_of_deck id t.cards q.card_id) (λ q. record q { card_id = none })
        t.quiz_questions;
}

-- DeckRepository.CreateShare
unfoldable pub create_share_row : Env → DeckShare → M Tables DeckShare
create_share_row env share = exec λ t.
    let row = record share { id = t.fresh_id; created_at = env.now } in
    (row, record t { deck_shares = t.deck_shares ++ row ∷ []; fresh_id = t.fresh_id + 1 })

abbrev pub has_code : Text → DeckShare → Bool
has_code code s = text_eq s.share_code code

-- DeckRepository.GetShareByCode
unfoldable pub get_share_by_code : Text → M Tables DeckShare
get_share_by_code code = do
  row ← query (λ t. select_one (has_code code) t.deck_shares)
  or_not_found row

-- DeckRepository.DeleteShare
unfoldable pub delete_share_row : ℕ → M Tables (Unit {0})
delete_share_row id =
    modify λ t. record t { deck_shares = delete_where (λ s. s.deck_id == id) t.deck_shares }

-- the first statement of CloneDeck: INSERT … SELECT … WHERE id = $3 RETURNING …
unfoldable pub clone_row : Env → ℕ → Text → Deck → ℕ → Deck
clone_row env user_id name source id = record {
  id = id;
  user_id = user_id;
  name = name;
  description = source.description;
  is_archived = false;
  new_cards_per_day = none;
  position = pos 0;
  created_at = env.now;
  updated_at = env.now;
}

unfoldable pub insert_clone : Env → ℕ → Text → Option Deck → Tables → Option Deck × Tables
unfolding clone_row
insert_clone env user_id name none t = (none, t)
insert_clone env user_id name (some source) t =
    let row = clone_row env user_id name source t.fresh_id in
    (some row, record t { decks = t.decks ++ row ∷ []; fresh_id = t.fresh_id + 1 })

-- a row of the second one: the columns that are not named have their defaults
unfoldable pub clone_card : Env → ℕ → Card → ℕ → Card
unfolding new_card
clone_card env deck_id c id = new_card env (record c { deck_id = deck_id }) id

-- the rows of INSERT INTO cards … SELECT …
unfoldable pub clone_cards : Env → ℕ → ℕ → List Card → List Card
clone_cards env deck_id id [] = []
clone_cards env deck_id id (c ∷ cs) =
    clone_card env deck_id c id ∷ clone_cards env deck_id (id + 1) cs

-- INSERT INTO cards … SELECT … FROM cards WHERE deck_id = $2 ORDER BY position
unfoldable pub insert_cards : Env → ℕ → List Card → Tables → Tables
unfolding clone_cards
insert_cards env deck_id sources t = record t {
  cards = t.cards ++ clone_cards env deck_id t.fresh_id sources;
  fresh_id = t.fresh_id + length sources;
}

-- the statements of CloneDeck
unfoldable pub clone_body : Env → ℕ → ℕ → Text → M Tables Deck
unfolding insert_clone insert_cards
clone_body env source_id user_id name = do
  row ← exec (λ t. insert_clone env user_id name (select_one (is_deck source_id) t.decks) t)
  deck ← or_error row
  modify (λ t. insert_cards env deck.id (order_cards (select_where (in_deck source_id) t.cards)) t)
  pure deck

-- DeckRepository.CloneDeck
unfoldable pub clone_deck_row : Env → ℕ → ℕ → Text → M Tables Deck
clone_deck_row env source_id user_id name = transact (clone_body env source_id user_id name)
