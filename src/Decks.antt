-- ===== src/Decks.antt =====
-- internal/service/deck.go: the decks of a user, their shares, clones, exports and imports.
pub mod Transfer
pub mod Cloned
use backend_quiz.Common.{
  ℕ, suc, ◌+◌, ◌==◌, Bool, true, false, not, Option, none, some, List, [], ◌∷◌, map, or_default,
}
use backend_quiz.Common.{ℤ, pos}
use backend_quiz.Common.Text.{Text}
use backend_quiz.Domain.{forbidden, Result, ok, err}
use backend_quiz.Domain.Card.{Env, Card, CardFilter}
use backend_quiz.Domain.Deck.{
  Deck, DeckShare, CreateDeckRequest, UpdateDeckRequest, ShareDeckRequest, ExportCard, ExportDeck,
  ImportDeckRequest,
}
use backend_quiz.Db.{lift, M, pure, raise_if, ignore, transact, ◌>>=◌, ◌>>◌}
use backend_quiz.Repository.Tables.{Tables}
use backend_quiz.Repository.Cards.{bulk_create_cards, list_cards}
use backend_quiz.Repository.Decks.{
  get_deck, create_deck_row, update_deck_row, delete_deck_row, create_share_row, get_share_by_code,
  delete_share_row, clone_deck_row,
}

-- a deck before it is stored: Go's zero values in the fields that the request does not give
abbrev pub deck_of : ℕ → Text → Text → Option ℤ → Deck
deck_of user_id name description new_cards_per_day = record {
  id = 0;
  user_id = user_id;
  name = name;
  description = description;
  is_archived = false;
  new_cards_per_day = new_cards_per_day;
  position = pos 0;
  created_at = 0;
  updated_at = 0;
}

-- Create
unfoldable pub create_deck : Env → ℕ → CreateDeckRequest → M Tables Deck
create_deck env user_id req =
    create_deck_row env (deck_of user_id req.name req.description req.new_cards_per_day)

-- Get, with which every other method on a deck begins
unfoldable pub own_deck : ℕ → ℕ → M Tables Deck
own_deck user_id deck_id = do
  deck ← get_deck deck_id
  raise_if (not (deck.user_id == user_id)) forbidden
  pure deck

-- the fields that a request gives
unfoldable pub merge_deck : UpdateDeckRequest → Deck → Deck
merge_deck req deck = record deck {
  name = or_default req.name deck.name;
  description = or_default req.description deck.description;
  is_archived = or_default req.is_archived deck.is_archived;
  new_cards_per_day = elim req.new_cards_per_day [
    | none ↦ deck.new_cards_per_day
    | some n ↦ some n
  ];
  position = or_default req.position deck.position;
}

-- Update
unfoldable pub update_deck : Env → ℕ → ℕ → UpdateDeckRequest → M Tables Deck
unfolding merge_deck
update_deck env user_id deck_id req = do
  deck ← own_deck user_id deck_id
  update_deck_row env (merge_deck req deck)

-- Delete
unfoldable pub delete_deck : ℕ → ℕ → M Tables (Unit {0})
delete_deck user_id deck_id = do deck ← own_deck user_id deck_id; delete_deck_row deck_id

-- a share before it is stored
abbrev pub share_of : Text → ℕ → ShareDeckRequest → DeckShare
share_of code deck_id req = record {
  id = 0;
  deck_id = deck_id;
  share_code = code;
  is_public = req.is_public;
  created_at = 0;
}

-- Share; `code` is what generateShareCode draws
unfoldable pub share_deck : Env → Text → ℕ → ℕ → ShareDeckRequest → M Tables DeckShare
share_deck env code user_id deck_id req = do
  deck ← own_deck user_id deck_id
  ignore (delete_share_row deck_id)
  create_share_row env (share_of code deck_id req)

-- Unshare
unfoldable pub unshare_deck : ℕ → ℕ → M Tables (Unit {0})
unshare_deck user_id deck_id = do deck ← own_deck user_id deck_id; delete_share_row deck_id

-- Clone
unfoldable pub clone_deck : Env → ℕ → Text → M Tables Deck
clone_deck env user_id code = do
  share ← get_share_by_code code
  source ← get_deck share.deck_id
  clone_deck_row env source.id user_id source.name

abbrev pub no_filter : CardFilter
no_filter = record { state = none; tag = []; query = [] }

abbrev pub export_card : Card → ExportCard
export_card c = record { front = c.front; back = c.back; tags = some c.tags }

-- Export; `marshal` is json.MarshalIndent
unfoldable pub export_deck :
    (ExportDeck → Result Text) → (Text → Text → Bool) → ℕ → ℕ → M Tables Text
unfolding own_deck
export_deck marshal ilike user_id deck_id = do
  deck ← own_deck user_id deck_id
  (cards, _) ← list_cards ilike deck_id no_filter (pos 10000) (pos 0)
  lift (
      marshal (record {
        name = deck.name;
        description = deck.description;
        cards = map export_card cards;
      }))

-- a card of Import before it is stored, at position `i`
abbrev pub import_card : ℕ → ℕ → ExportCard → Card
import_card deck_id i c = record {
  id = 0;
  deck_id = deck_id;
  front = c.front;
  back = c.back;
  content_type = [];
  tags = or_default c.tags [];
  is_suspended = false;
  position = pos i;
  created_at = 0;
  updated_at = 0;
  due = 0;
  stability = pos 0;
  difficulty = pos 0;
  elapsed_days = pos 0;
  scheduled_days = pos 0;
  reps = pos 0;
  lapses = pos 0;
  state = pos 0;
  last_review = none;
}

-- the loops over the cards of Import, which give each its index and the new deck's id
unfoldable pub import_cards : ℕ → ℕ → List ExportCard → List Card
import_cards deck_id i [] = []
import_cards deck_id i (c ∷ cs) = import_card deck_id i c ∷ import_cards deck_id (suc i) cs

-- Import
unfoldable pub import_deck : Env → ℕ → ImportDeckRequest → M Tables Deck
unfolding import_cards
import_deck env user_id req = transact do
  deck ← create_deck_row env (deck_of user_id req.name [] none)
  rows ← bulk_create_cards env (import_cards deck.id 0 req.cards)
  pure deck
