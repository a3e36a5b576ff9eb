-- ===== src/Cards/Store.antt =====
-- The card requests of internal/service/card.go that change a stored card, and what they are as
-- steps of a store that is a map from ids to cards.
use backend_quiz.Common.{
  ℕ, ◌==◌, Bool, not, Option, none, some, List, [], ◌∷◌, if◌then◌else◌, select_one,
}
use backend_quiz.Domain.{Error, not_found, forbidden, Result, ok, err}
use backend_quiz.Domain.Card.{Env, Card}
use backend_quiz.Domain.Deck.{Deck, UpdateCardRequest}
use backend_quiz.Db.{World}
use backend_quiz.Repository.Tables.{Tables}
use backend_quiz.Repository.Cards.{is_card, reset_row}
use backend_quiz.Repository.Decks.{is_deck}
use backend_quiz.Study.Ended.{error_of}
use backend_quiz.Cards.{merge_card, update_card, delete_card, reset_card, suspend_card}

pub data CardRequest : Type 0 where
  update : Env → ℕ → ℕ → UpdateCardRequest → CardRequest
  delete : Env → ℕ → ℕ → CardRequest
  reset : Env → ℕ → ℕ → CardRequest
  suspend : Env → ℕ → ℕ → Bool → CardRequest

-- what a request leaves behind, and the error that it returns
unfoldable pub handle : CardRequest → World Tables → World Tables
handle (update env u id req) w = (update_card env u id req w).1
handle (delete env u id) w = (delete_card u id w).1
handle (reset env u id) w = (reset_card env u id w).1
handle (suspend env u id b) w = (suspend_card env u id b w).1

unfoldable pub failure : CardRequest → World Tables → Option Error
failure (update env u id req) w = error_of (update_card env u id req w).0
failure (delete env u id) w = error_of (delete_card u id w).0
failure (reset env u id) w = error_of (reset_card env u id w).0
failure (suspend env u id b) w = error_of (suspend_card env u id b w).0

unfoldable pub handle_all : List CardRequest → World Tables → World Tables
handle_all [] w = w
handle_all (r ∷ rs) w = handle_all rs (handle r w)

-- The abstract store.
abbrev pub Store : Type 0
Store = ℕ → Option Card

abbrev pub find_card : Tables → Store
find_card t id = select_one (is_card id) t.cards

abbrev pub find_deck : Tables → ℕ → Option Deck
find_deck t id = select_one (is_deck id) t.decks

abbrev pub put : ℕ → Option Card → Store → Store
put id o s i = if i == id then o else s i

-- the card that a user may change
abbrev pub if_owner : ℕ → Card → Option Deck → Result Card
if_owner u c none = err not_found
if_owner u c (some d) = if not (d.user_id == u) then err forbidden else ok c

abbrev pub authorize : (ℕ → Option Deck) → ℕ → Option Card → Result Card
authorize decks u none = err not_found
authorize decks u (some c) = if_owner u c (decks c.deck_id)

abbrev pub user_of : CardRequest → ℕ
user_of (update env u id req) = u
user_of (delete env u id) = u
user_of (reset env u id) = u
user_of (suspend env u id b) = u

abbrev pub card_id_of : CardRequest → ℕ
card_id_of (update env u id req) = id
card_id_of (delete env u id) = id
card_id_of (reset env u id) = id
card_id_of (suspend env u id b) = id

-- what becomes of the card
unfoldable pub change : CardRequest → Card → Option Card
change (update env u id req) c = some (record (merge_card req c) { updated_at = env.now })
change (delete env u id) c = none
change (reset env u id) c = some (reset_row env c)
change (suspend env u id b) c = some (record c { is_suspended = b; updated_at = env.now })

abbrev pub put_changed : CardRequest → Result Card → Store → Store
put_changed r (err e) s = s
put_changed r (ok c) s = put (card_id_of r) (change r c) s

abbrev pub step : (ℕ → Option Deck) → CardRequest → Store → Store
step decks r s = put_changed r (authorize decks (user_of r) (s (card_id_of r))) s

unfoldable pub replay : (ℕ → Option Deck) → List CardRequest → Store → Store
replay decks [] s = s
replay decks (r ∷ rs) s = replay decks rs (step decks r s)
