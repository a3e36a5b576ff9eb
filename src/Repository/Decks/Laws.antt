-- ===== src/Repository/Decks/Laws.antt =====
-- What the reads of decks and shares do and find.
use backend_quiz.Common.{ℕ, ◌≡◌, some, select_one, arith}
use backend_quiz.Common.Text.{Text}
use backend_quiz.Domain.{ok}
use backend_quiz.Domain.Deck.{Deck, DeckShare}
use backend_quiz.Db.{World, exec}
use backend_quiz.Db.Rules.{IsReadOnly, IsReadOnly-query}
use backend_quiz.Db.Compose.{IsReadOnly-bind}
use backend_quiz.Repository.Tables.{Tables}
use backend_quiz.Repository.Sessions.Laws.{IsReadOnly-or_not_found}
use backend_quiz.Repository.Decks.{is_deck, has_code, get_deck, get_share_by_code}

pub IsReadOnly-get_deck : (id : ℕ) → IsReadOnly (get_deck id)
unfolding get_deck
IsReadOnly-get_deck id = IsReadOnly-bind (IsReadOnly-query _) IsReadOnly-or_not_found

pub IsReadOnly-get_share_by_code : (code : Text) → IsReadOnly (get_share_by_code code)
unfolding get_share_by_code
IsReadOnly-get_share_by_code code = IsReadOnly-bind (IsReadOnly-query _) IsReadOnly-or_not_found

pub get_share_by_code-ok :
    (code : Text) (w : World Tables) (s : DeckShare)
    → (get_share_by_code code w).0 ≡ ok s
    → (select_one (has_code code) w.tables.deck_shares ≡ some s)
      × ((get_share_by_code code w).1.tables ≡ w.tables)
unfolding get_share_by_code exec
get_share_by_code-ok code w s h = ground arith

pub get_deck-ok :
    (id : ℕ) (w : World Tables) (d : Deck)
    → (get_deck id w).0 ≡ ok d
    → (select_one (is_deck id) w.tables.decks ≡ some d) × ((get_deck id w).1.tables ≡ w.tables)
unfolding get_deck exec
get_deck-ok id w d h = ground arith
