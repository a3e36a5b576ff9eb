-- ===== src/Repository/Cards.antt =====
-- internal/repository/card.go and db/queries/cards.sql.
pub mod Due
pub mod Laws
use backend_quiz.Common.{
  ℕ, suc, ◌+◌, Bool, true, false, not, ◌&&◌, ◌||◌, Option, none, some, List, [], ◌∷◌, ◌++◌, ◌==◌,
  leb, ltb, if◌then◌else◌, select_one, select_where, update_where, delete_where, take, drop, length,
  count_where,
}
use backend_quiz.Common.{ℤ, pos, negsuc, ◌+ℤ◌, int16, int32, eq_ℤ, leb_ℤ, ltb_ℤ}
use backend_quiz.Common.Text.{Text, text_eq}
use backend_quiz.Domain.{Error, database, Result, ok, err}
use backend_quiz.Domain.Card.{
  Env, Time, Card, CardState, card_state_new, card_state_learning, card_state_review,
  card_state_relearning, CardFilter, content_type_plain,
}
use backend_quiz.Domain.Quiz.{QuizQuestion}
use backend_quiz.Db.{World, M, pure, raise, exec, query, modify, transact, ◌>>=◌, ◌>>◌}
use backend_quiz.Repository.Tables.{Tables, or_not_found}

abbrev pub is_card : ℕ → Card → Bool
is_card id c = c.id == id

-- CardRepository.GetByID
unfoldable pub get_card : ℕ → M Tables Card
get_card id = do row ← query (λ t. select_one (is_card id) t.cards); or_not_found row

-- the columns that UpdateCardFSRS writes
abbrev pub write_fsrs : Env → Card → Card → Card
write_fsrs env card row = record row {
  due = card.due;
  stability = env.float32 card.stability;
  difficulty = env.float32 card.difficulty;
  elapsed_days = int32 card.elapsed_days;
  scheduled_days = int32 card.scheduled_days;
  reps = int32 card.reps;
  lapses = int32 card.lapses;
  state = int16 card.state;
  last_review = card.last_review;
  updated_at = env.now;
}

-- CardRepository.UpdateFSRS
unfoldable pub update_fsrs : Env → Card → M Tables (Unit {0})
update_fsrs env card =
    modify λ t. record t { cards = update_where (is_card card.id) (write_fsrs env card) t.cards }

-- CardRepository.Update
unfoldable pub update_card_row : Env → Card → M Tables (Unit {0})
update_card_row env card = modify λ t. record t {
  cards =
      update_where (is_card card.id)
        (λ row. record row {
          front = card.front;
          back = card.back;
          content_type = card.content_type;
          tags = card.tags;
          updated_at = env.now;
        })
        t.cards;
}

-- the question of a quiz that is linked to a card
abbrev pub linked_to : ℕ → QuizQuestion → Bool
linked_to id q = elim q.card_id [ none ↦ false | some i ↦ i == id ]

-- CardRepository.Delete: ON DELETE CASCADE from the card's logs, ON DELETE SET NULL from questions
unfoldable pub delete_card_row : ℕ → M Tables (Unit {0})
delete_card_row id = modify λ t. record t {
  cards = delete_where (is_card id) t.cards;
  review_logs = delete_where (λ l. l.card_id == id) t.review_logs;
  quiz_questions = update_where (linked_to id) (λ q. record q { card_id = none }) t.quiz_questions;
}

-- CardRepository.SetSuspended
unfoldable pub set_suspended : Env → ℕ → Bool → M Tables (Unit {0})
set_suspended env id suspended = modify λ t. record t {
  cards =
      update_where (is_card id)
        (λ row. record row { is_suspended = suspended; updated_at = env.now }) t.cards;
}

-- the columns that ResetCardFSRS writes
abbrev pub reset_row : Env → Card → Card
reset_row env row = record row {
  due = env.now;
  stability = pos 0;
  difficulty = pos 0;
  elapsed_days = pos 0;
  scheduled_days = pos 0;
  reps = pos 0;
  lapses = pos 0;
  state = pos 0;
  last_review = none;
  updated_at = env.now;
}

-- CardRepository.ResetFSRS
unfoldable pub reset_fsrs : Env → ℕ → M Tables (Unit {0})
reset_fsrs env id =
    modify λ t. record t { cards = update_where (is_card id) (reset_row env) t.cards }

abbrev pub is_new : Card → Bool
is_new c = eq_ℤ c.state card_state_new

abbrev pub is_learning : Card → Bool
is_learning c = eq_ℤ c.state card_state_learning || eq_ℤ c.state card_state_relearning

-- the WHERE of GetDueCards
unfoldable pub due_now : ℕ → Time → Card → Bool
due_now deck_id now c =
    (c.deck_id == deck_id)
    && not c.is_suspended
    && (is_new c
        || (is_learning c && leb c.due now)
        || (eq_ℤ c.state card_state_review && leb c.due now))

-- the CASE of its ORDER BY; NULL sorts last
unfoldable pub rank : Card → ℕ
rank c =
    if is_learning c
    then 0
    else if eq_ℤ c.state card_state_review
    then 1
    else if is_new c
    then 2
    else 3

-- the ORDER BY: by rank, then by due date
unfoldable pub before : Card → Card → Bool
unfolding rank
before a b = ltb (rank a) (rank b) || ((rank a == rank b) && leb a.due b.due)

unfoldable pub insert_due : Card → List Card → List Card
unfolding before
insert_due c [] = c ∷ []
insert_due c (d ∷ ds) = if before c d then c ∷ d ∷ ds else d ∷ insert_due c ds

unfoldable pub order_due : List Card → List Card
unfolding insert_due
order_due [] = []
order_due (c ∷ cs) = insert_due c (order_due cs)

-- the loop that applies the limit on new cards; `new_count` is its counter
unfoldable pub apply_new_limit : ℤ → ℕ → List Card → List Card
apply_new_limit new_limit new_count [] = []
apply_new_limit new_limit new_count (c ∷ cs) =
    let kept = c ∷ apply_new_limit new_limit (new_count + 1) cs in
    let skipped = apply_new_limit new_limit new_count cs in
    let other = c ∷ apply_new_limit new_limit new_count cs in
    if is_new c then (if leb_ℤ new_limit (pos new_count) then skipped else kept) else other

-- LIMIT $3; the server refuses a negative one
unfoldable pub take_limit : ℤ → List Card → M Tables (List Card)
take_limit (pos n) rows = pure (take n rows)
take_limit (negsuc n) rows = raise database

-- CardRepository.GetDueCards
unfoldable pub get_due_cards : ℕ → Time → ℤ → ℤ → M Tables (List Card)
unfolding take_limit order_due due_now apply_new_limit
get_due_cards deck_id now new_limit review_limit = do
  rows ← query (λ t. order_due (select_where (due_now deck_id now) t.cards))
  limited ← take_limit (int32 (new_limit +ℤ review_limit)) rows
  pure (apply_new_limit new_limit 0 limited)

abbrev pub in_deck : ℕ → Card → Bool
in_deck id c = c.deck_id == id

-- the row that CreateCard stores: the columns that it does not name have their defaults
unfoldable pub new_card : Env → Card → ℕ → Card
new_card env card id = record {
  id = id;
  deck_id = card.deck_id;
  front = card.front;
  back = card.back;
  content_type = card.content_type;
  tags = card.tags;
  is_suspended = false;
  position = card.position;
  created_at = env.now;
  updated_at = env.now;
  due = env.now;
  stability = pos 0;
  difficulty = pos 0;
  elapsed_days = pos 0;
  scheduled_days = pos 0;
  reps = pos 0;
  lapses = pos 0;
  state = pos 0;
  last_review = none;
}

-- `if card.ContentType == "" { card.ContentType = domain.ContentTypePlain }`
abbrev pub or_plain : Text → Text
or_plain [] = content_type_plain
or_plain (c ∷ s) = c ∷ s

-- CardRepository.Create, and one round of the loop of BulkCreate
unfoldable pub create_card_row : Env → Card → M Tables Card
unfolding new_card
create_card_row env card = exec λ t.
    let row =
      new_card env
        (record card { content_type = or_plain card.content_type; position = int32 card.position })
        t.fresh_id in
    (row, record t { cards = t.cards ++ row ∷ []; fresh_id = t.fresh_id + 1 })

-- the loop of CardRepository.BulkCreate
unfoldable pub create_card_rows : Env → List Card → M Tables (List Card)
create_card_rows env [] = pure []
create_card_rows env (c ∷ cs) = do
  row ← create_card_row env c
  rows ← create_card_rows env cs
  pure (row ∷ rows)

-- CardRepository.BulkCreate
unfoldable pub bulk_create_cards : Env → List Card → M Tables (List Card)
bulk_create_cards env cards = transact (create_card_rows env cards)

-- ORDER BY position, created_at; CloneDeck orders by the position alone, and the rows of one
-- position are taken in this order there too
unfoldable pub listed_before : Card → Card → Bool
listed_before a b =
    ltb_ℤ a.position b.position || (eq_ℤ a.position b.position && leb a.created_at b.created_at)

unfoldable pub insert_card : Card → List Card → List Card
unfolding listed_before
insert_card c [] = c ∷ []
insert_card c (d ∷ ds) = if listed_before c d then c ∷ d ∷ ds else d ∷ insert_card c ds

unfoldable pub order_cards : List Card → List Card
unfolding insert_card
order_cards [] = []
order_cards (c ∷ cs) = insert_card c (order_cards cs)

-- an optional condition of the WHERE, of which an empty text is the absent one
abbrev pub unless_empty : Text → (Text → Bool) → Bool
unless_empty [] test = true
unless_empty (c ∷ s) test = test (c ∷ s)

abbrev pub unless_nil : Option CardState → (CardState → Bool) → Bool
unless_nil none test = true
unless_nil (some s) test = test s

abbrev pub has_tag : Text → List Text → Bool
has_tag tag [] = false
has_tag tag (t ∷ ts) = text_eq tag t || has_tag tag ts

-- the WHERE of ListCardsByDeckID; `ilike s q` is s ILIKE '%' || q || '%'
unfoldable pub matches : (Text → Text → Bool) → ℕ → CardFilter → Card → Bool
matches ilike deck_id filter c =
    in_deck deck_id c
    && unless_nil filter.state (λ s. eq_ℤ c.state (int16 s))
    && unless_empty filter.tag (λ tag. has_tag tag c.tags)
    && unless_empty filter.query (λ q. ilike c.front q || ilike c.back q)

-- LIMIT and OFFSET; the server refuses negative ones
unfoldable pub take_page : ℤ → ℤ → List Card → M Tables (List Card)
take_page (pos n) (pos k) rows = pure (take n (drop k rows))
take_page _ _ rows = raise database

-- CardRepository.ListByDeckID
unfoldable pub list_cards : (Text → Text → Bool) → ℕ → CardFilter → ℤ → ℤ → M Tables (List Card × ℤ)
unfolding order_cards matches take_page
list_cards ilike deck_id filter limit offset = do
  rows ← query (λ t. order_cards (select_where (matches ilike deck_id filter) t.cards))
  page ← take_page (int32 limit) (int32 offset) rows
  total ← query (λ t. count_where (matches ilike deck_id filter) t.cards)
  pure (page, pos total)
