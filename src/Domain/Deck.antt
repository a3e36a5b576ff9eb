-- ===== src/Domain/Deck.antt =====
-- internal/domain/deck.go: decks and their shares; internal/dto/{deck,card}.go: the requests on
-- decks and cards. A nil []string is `none`.
use backend_quiz.Common.{ℕ, Bool, Option, List}
use backend_quiz.Common.{ℤ}
use backend_quiz.Common.Text.{Text}
use backend_quiz.Domain.Card.{Time}

pub record Deck : Type 0 where
  pub id : ℕ
  pub user_id : ℕ
  pub name : Text
  pub description : Text
  pub is_archived : Bool
  pub new_cards_per_day : Option ℤ
  pub position : ℤ
  pub created_at : Time
  pub updated_at : Time

pub record DeckShare : Type 0 where
  pub id : ℕ
  pub deck_id : ℕ
  pub share_code : Text
  pub is_public : Bool
  pub created_at : Time

pub record CreateDeckRequest : Type 0 where
  pub name : Text
  pub description : Text
  pub new_cards_per_day : Option ℤ

pub record UpdateDeckRequest : Type 0 where
  pub name : Option Text
  pub description : Option Text
  pub is_archived : Option Bool
  pub new_cards_per_day : Option ℤ
  pub position : Option ℤ

pub record ShareDeckRequest : Type 0 where
  pub is_public : Bool

pub record ExportCard : Type 0 where
  pub front : Text
  pub back : Text
  pub tags : Option (List Text)

pub record ExportDeck : Type 0 where
  pub name : Text
  pub description : Text
  pub cards : List ExportCard

pub record ImportDeckRequest : Type 0 where
  pub name : Text
  pub cards : List ExportCard

pub record CreateCardRequest : Type 0 where
  pub front : Text
  pub back : Text
  pub content_type : Text
  pub tags : Option (List Text)

pub record UpdateCardRequest : Type 0 where
  pub front : Option Text
  pub back : Option Text
  pub content_type : Option Text
  pub tags : Option (List Text)
