-- ===== src/Repository/Cards/Laws.antt =====
-- What the statements on the cards do to the rows.
use backend_quiz.Common.{ℕ, ◌≡◌, ℤ, pos, negsuc, List, some, select_one, arith}
use backend_quiz.Domain.Card.{Time, Card}
use backend_quiz.Domain.{ok}
use backend_quiz.Db.{World, exec}
use backend_quiz.Db.Rules.{IsReadOnly, IsReadOnly-query}
use backend_quiz.Db.Compose.{IsReadOnly-pure, IsReadOnly-raise, IsReadOnly-bind}
use backend_quiz.Repository.Tables.{Tables}
use backend_quiz.Repository.Sessions.Laws.{IsReadOnly-or_not_found}
use backend_quiz.Repository.Cards.{is_card, get_card, get_due_cards, take_limit}

pub IsReadOnly-get_card : (id : ℕ) → IsReadOnly (get_card id)
unfolding get_card
IsReadOnly-get_card id = IsReadOnly-bind (IsReadOnly-query _) IsReadOnly-or_not_found

IsReadOnly-take_limit : (limit : ℤ) (rows : List Card) → IsReadOnly (take_limit limit rows)
unfolding take_limit
IsReadOnly-take_limit (pos n) rows = IsReadOnly-pure _
IsReadOnly-take_limit (negsuc n) rows = IsReadOnly-raise _

pub IsReadOnly-get_due_cards :
    (deck_id : ℕ) (now : Time) (new_limit review_limit : ℤ)
    → IsReadOnly (get_due_cards deck_id now new_limit review_limit)
unfolding get_due_cards
IsReadOnly-get_due_cards deck_id now new_limit review_limit =
    IsReadOnly-bind (IsReadOnly-query _)
      λ rows. IsReadOnly-bind (IsReadOnly-take_limit _ rows) λ limited. IsReadOnly-pure _

-- What is found is a row of the table.
pub get_card-ok :
    (id : ℕ) (w : World Tables) (c : Card)
    → (get_card id w).0 ≡ ok c
    → select_one (is_card id) w.tables.cards ≡ some c
unfolding get_card exec
get_card-ok id w c h = ground arith
