-- ===== src/Cards.antt =====
-- internal/service/card.go: the cards of a deck. A card belongs to the owner of its deck.
pub mod Store
pub mod Refines
pub mod Requests
pub mod Kept
pub mod Owners
use backend_quiz.Common.{
  ℕ, suc, ◌==◌, Bool, true, false, not, Option, none, some, List, [], ◌∷◌, or_default,
}
use backend_quiz.Common.{ℤ, pos}
use backend_quiz.Common.Text.{Text}
use backend_quiz.Domain.{forbidden}
use backend_quiz.Domain.Card.{Env, Card, CardFilter}
use backend_quiz.Domain.Deck.{CreateCardRequest, UpdateCardRequest}
use backend_quiz.Db.{M, pure, raise_if, ◌>>=◌, ◌>>◌}
use backend_quiz.Repository.Tables.{Tables}
use backend_quiz.Repository.Cards.{
  get_card, create_card_row, bulk_create_cards, update_card_row, delete_card_row, set_suspended,
  reset_fsrs, list_cards, or_plain,
}
use backend_quiz.Repository.Decks.{get_deck}
use backend_quiz.Decks.{own_deck}

-- a card before it is stored, at position `i`
abbrev pub card_of : ℕ → ℕ → CreateCardRequest → Card
card_of deck_id i req = record {
  id = 0;
  deck_id = deck_id;
  front = req.front;
  back = req.back;
  content_type = or_plain req.content_type;
  tags = or_default req.tags [];
  is_suspended = false;
  position = pos i;
  created_at = 0;
  updated_at = 0;
  due = 0;
  stability = pos 0;
  difficulty = pos 0;
  elapsed_days = pos 0;
  scheduled_days = pos 0;
  reps = pos 0;
  lapses = pos 0;
  state = pos 0;
  last_review = none;
}

-- Create
unfoldable pub create_card : Env → ℕ → ℕ → CreateCardRequest → M Tables Card
create_card env user_id deck_id req = do
  deck ← own_deck user_id deck_id
  create_card_row env (card_of deck_id 0 req)

-- the loop of BatchCreate, which gives each card its index in the request
unfoldable pub cards_from : ℕ → ℕ → List CreateCardRequest → List Card
cards_from deck_id i [] = []
cards_from deck_id i (req ∷ reqs) = card_of deck_id i req ∷ cards_from deck_id (suc i) reqs

-- BatchCreate
unfoldable pub batch_create_cards : Env → ℕ → ℕ → List CreateCardRequest → M Tables (List Card)
unfolding cards_from
batch_create_cards env user_id deck_id reqs = do
  deck ← own_deck user_id deck_id
  bulk_create_cards env (cards_from deck_id 0 reqs)

-- List
unfoldable pub list_own_cards :
    (Text → Text → Bool) → ℕ → ℕ → CardFilter → ℤ → ℤ → M Tables (List Card × ℤ)
list_own_cards ilike user_id deck_id filter limit offset = do
  deck ← own_deck user_id deck_id
  list_cards ilike deck_id filter limit offset

-- the card of a request, and the check of its deck's owner
unfoldable pub own_card : ℕ → ℕ → M Tables Card
own_card user_id card_id = do
  card ← get_card card_id
  deck ← get_deck card.deck_id
  raise_if (not (deck.user_id == user_id)) forbidden
  pure card

-- the fields that a request gives
unfoldable pub merge_card : UpdateCardRequest → Card → Card
merge_card req card = record card {
  front = or_default req.front card.front;
  back = or_default req.back card.back;
  content_type = or_default req.content_type card.content_type;
  tags = or_default req.tags card.tags;
}

-- Update
unfoldable pub update_card : Env → ℕ → ℕ → UpdateCardRequest → M Tables Card
unfolding merge_card
update_card env user_id card_id req = do
  card ← own_card user_id card_id
  update_card_row env (merge_card req card)
  pure (merge_card req card)

-- Delete
unfoldable pub delete_card : ℕ → ℕ → M Tables (Unit {0})
delete_card user_id card_id = do card ← own_card user_id card_id; delete_card_row card_id

-- ResetFSRS
unfoldable pub reset_card : Env → ℕ → ℕ → M Tables Card
reset_card env user_id card_id = do
  card ← own_card user_id card_id
  reset_fsrs env card_id
  get_card card_id

-- Suspend
unfoldable pub suspend_card : Env → ℕ → ℕ → Bool → M Tables (Unit {0})
suspend_card env user_id card_id suspended = do
  card ← own_card user_id card_id
  set_suspended env card_id suspended
