-- ===== src/Checks/Decks.antt =====
-- Examples of the theorems of `Decks` and `Cards`.
use backend_quiz.Common.{select_one, select_where, map}
use backend_quiz.Common.{◌≡◌, refl, true, false, none, some, List, [], ◌∷◌, arith, ℕ}
use backend_quiz.Common.{pos, negsuc}
use backend_quiz.Common.Text.{Text}
use backend_quiz.Domain.{Result, ok}
use backend_quiz.Domain.Card.{Card}
use backend_quiz.Domain.Deck.{Deck, DeckShare, ExportDeck, ImportDeckRequest, UpdateCardRequest}
use backend_quiz.Db.{calm, exec, transact}
use backend_quiz.Repository.Tables.{Tables}
use backend_quiz.Repository.Decks.{
  get_deck, get_share_by_code, clone_deck_row, clone_body, insert_clone, insert_cards, clone_row,
}
use backend_quiz.Decks.{import_deck, export_deck, clone_deck}
use backend_quiz.Decks.Transfer.{IsFresh, export_deck-import_deck}
use backend_quiz.Repository.Decks.{has_code}
use backend_quiz.Repository.Cards.{in_deck}
use backend_quiz.Decks.Cloned.{CloneEffect, clone_deck_effect, clone_deck_cards, content, cards_of}
use backend_quiz.Cards.Store
use backend_quiz.Cards.Store.{
  CardRequest, Store, find_card, find_deck, authorize, user_of, card_id_of, replay, failure,
}
use backend_quiz.Cards.Refines.{handle_all_refines, card_request_errors}
use backend_quiz.Study.Ended.{error_of}
use backend_quiz.Cards.Requests
use backend_quiz.Cards.Requests.{Request}
use backend_quiz.Cards.Kept.{IsStored}
use backend_quiz.Cards.Owners.{NoneBy, others_rows_kept}
use backend_quiz.Checks.Rows.{env, rows, card_row}

abbrev deck_row : Deck
deck_row = record {
  id = 2;
  user_id = 1;
  name = b'd' ∷ [];
  description = b'e' ∷ [];
  is_archived = false;
  new_cards_per_day = none;
  position = pos 0;
  created_at = 0;
  updated_at = 0;
}

abbrev share_row : DeckShare
share_row = record {
  id = 6;
  deck_id = 2;
  share_code = b's' ∷ [];
  is_public = false;
  created_at = 0;
}

-- a second card, which comes before the other one
abbrev first_card : Card
first_card = record card_row { id = 7; front = b'f' ∷ []; position = negsuc 0 }

abbrev library : Tables
library = record rows {
  decks = deck_row ∷ [];
  deck_shares = share_row ∷ [];
  cards = card_row ∷ first_card ∷ [];
}

abbrev import_request : ImportDeckRequest
import_request = record {
  name = b'n' ∷ [];
  cards =
      record { front = b'a' ∷ []; back = b'b' ∷ []; tags = none }
      ∷ record { front = b'c' ∷ []; back = []; tags = some ((b't' ∷ []) ∷ []) }
      ∷ [];
}

abbrev first_front : ExportDeck → Result Text
first_front d = elim d.cards [ [] ↦ ok [] | c ∷ cs ↦ ok c.front ]

library-IsFresh : IsFresh library
library-IsFresh = record { decks = refl; cards = refl }

export_deck-import_deck_example :
    (deck : Deck) × (rows : Tables) × (import_deck env 1 import_request (calm library)
      ≡ (ok deck, calm rows))
    × (export_deck first_front (λ s q. false) 1 deck.id (calm rows) ≡ (ok (b'a' ∷ []), calm rows))
export_deck-import_deck_example =
    export_deck-import_deck env first_front (λ s q. false) 1 import_request library library-IsFresh
      (omega arith)

abbrev cloned : Deck
cloned = record deck_row { id = 20; user_id = 9; created_at = 5000; updated_at = 5000 }

clone_ok : (clone_deck env 9 (b's' ∷ []) (calm library)).0 ≡ ok cloned
unfolding clone_deck get_share_by_code get_deck clone_deck_row clone_body insert_clone insert_cards
    clone_row exec transact
clone_ok = refl

clone_deck_effect_example :
    (share : DeckShare) × (source : Deck) × CloneEffect env 9
      (b's' ∷ [])
      library
      (clone_deck env 9 (b's' ∷ []) (calm library)).1.tables
      cloned
      share
      source
clone_deck_effect_example = clone_deck_effect env 9 (b's' ∷ []) (calm library) cloned clone_ok

clone_deck_cards_example :
    (share : DeckShare) × (select_one (has_code (b's' ∷ [])) library.deck_shares ≡ some share)
    × (map content
          (select_where (in_deck 20) (clone_deck env 9 (b's' ∷ []) (calm library)).1.tables.cards)
        ≡ map content (cards_of share.deck_id library))
clone_deck_cards_example =
    clone_deck_cards env 9 (b's' ∷ []) (calm library) cloned library-IsFresh clone_ok

abbrev edit : UpdateCardRequest
edit = record { front = some (b'z' ∷ []); back = none; content_type = none; tags = none }

-- the owner edits and suspends, a stranger tries to delete
abbrev on_cards : List CardRequest
on_cards = Store.update env 1 3 edit ∷ Store.delete env 9 7 ∷ Store.suspend env 1 7 true ∷ []

handle_all_refines_example :
    find_card (Store.handle_all on_cards (calm library)).tables
    ≡ replay (find_deck library) on_cards (find_card library)
handle_all_refines_example = handle_all_refines on_cards library

card_request_errors_example :
    failure (Store.delete env 9 7) (calm library)
    ≡ error_of (authorize (find_deck library) 9 (find_card library 7))
card_request_errors_example = card_request_errors (Store.delete env 9 7) library

abbrev strangers : List (ℕ × Request)
strangers =
    (9, Requests.delete 2) ∷ (9, Requests.clone env (b's' ∷ [])) ∷ (8, Requests.remove 3) ∷ []

no_owner : NoneBy 1 strangers
unfolding NoneBy
no_owner = ((λ e. omega (arith, e)), ((λ e. omega (arith, e)), ((λ e. omega (arith, e)), tt)))

library-IsStored : IsStored deck_row card_row library
library-IsStored = record { deck_row = refl; card_row = refl; is_old = omega arith }

others_rows_kept_example :
    IsStored deck_row card_row (Requests.handle_all strangers (calm library)).tables
others_rows_kept_example =
    others_rows_kept deck_row card_row strangers (calm library) library-IsStored no_owner
