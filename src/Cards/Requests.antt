-- ===== src/Cards/Requests.antt =====
-- The requests of a user to the methods of internal/service/{deck,card}.go that write, and their
-- checks of the owner.
use mathlib.Core.Path.{ap₂}
use backend_quiz.Common.{
  ℕ, ◌==◌, not, ◌≡◌, sym, ap, ◌∙◌, Bool, some, List, [], ◌∷◌, arith, select_one,
}
use backend_quiz.Common.Text.{Text}
use backend_quiz.Domain.{ok, forbidden}
use backend_quiz.Domain.Card.{Env, Card}
use backend_quiz.Domain.Deck.{
  Deck, CreateDeckRequest, UpdateDeckRequest, ShareDeckRequest, ImportDeckRequest,
  CreateCardRequest, UpdateCardRequest,
}
use backend_quiz.Db.{World, exec, pure}
use backend_quiz.Db.Rules.{IsReadOnly}
use backend_quiz.Db.Compose.{
  bind-ok, raise_if-ok, IsReadOnly-pure, IsReadOnly-bind, IsReadOnly-raise_if,
}
use backend_quiz.Repository.Tables.{Tables}
use backend_quiz.Repository.Cards.{is_card, get_card}
use backend_quiz.Repository.Cards.Laws.{IsReadOnly-get_card, get_card-ok}
use backend_quiz.Repository.Decks.{is_deck, get_deck}
use backend_quiz.Repository.Decks.Laws.{IsReadOnly-get_deck, get_deck-ok}
use backend_quiz.Decks.{
  own_deck, create_deck, update_deck, delete_deck, share_deck, unshare_deck, clone_deck,
  import_deck,
}
use backend_quiz.Cards.{
  own_card, create_card, batch_create_cards, update_card, delete_card, reset_card, suspend_card,
}

-- a request of the user `u` to a method that writes decks, shares or cards
pub data Request : Type 0 where
  create : Env → CreateDeckRequest → Request
  update : Env → ℕ → UpdateDeckRequest → Request
  delete : ℕ → Request
  share : Env → Text → ℕ → ShareDeckRequest → Request
  unshare : ℕ → Request
  clone : Env → Text → Request
  import_from : Env → ImportDeckRequest → Request
  add : Env → ℕ → CreateCardRequest → Request
  add_batch : Env → ℕ → List CreateCardRequest → Request
  change : Env → ℕ → UpdateCardRequest → Request
  remove : ℕ → Request
  reset : Env → ℕ → Request
  suspend : Env → ℕ → Bool → Request

-- what it leaves behind, whether it returns an error or not
unfoldable pub handle : ℕ → Request → World Tables → World Tables
handle u (create env req) w = (create_deck env u req w).1
handle u (update env d req) w = (update_deck env u d req w).1
handle u (delete d) w = (delete_deck u d w).1
handle u (share env code d req) w = (share_deck env code u d req w).1
handle u (unshare d) w = (unshare_deck u d w).1
handle u (clone env code) w = (clone_deck env u code w).1
handle u (import_from env req) w = (import_deck env u req w).1
handle u (add env d req) w = (create_card env u d req w).1
handle u (add_batch env d reqs) w = (batch_create_cards env u d reqs w).1
handle u (change env c req) w = (update_card env u c req w).1
handle u (remove c) w = (delete_card u c w).1
handle u (reset env c) w = (reset_card env u c w).1
handle u (suspend env c b) w = (suspend_card env u c b w).1

-- requests of any users
unfoldable pub handle_all : List (ℕ × Request) → World Tables → World Tables
handle_all [] w = w
handle_all ((u, r) ∷ rs) w = handle_all rs (handle u r w)

ruleset reads = (
  IsReadOnly-get_deck, IsReadOnly-get_card, IsReadOnly-bind, IsReadOnly-raise_if, IsReadOnly-pure,
)

pub IsReadOnly-own_deck : (u id : ℕ) → IsReadOnly (own_deck u id)
unfolding own_deck
IsReadOnly-own_deck u id = search reads depth 8

pub IsReadOnly-own_card : (u id : ℕ) → IsReadOnly (own_card u id)
unfolding own_card
IsReadOnly-own_card u id = search reads depth 10

-- what the owner's checks have found
pub own_deck-found :
    (u id : ℕ) (w : World Tables) (d : Deck)
    → (own_deck u id w).0 ≡ ok d
    → (select_one (is_deck id) w.tables.decks ≡ some d) × (d.user_id ≡ u)
unfolding own_deck get_deck exec
own_deck-found u id w d h = ground arith

pub own_card-found :
    (u id : ℕ) (w : World Tables) (c : Card)
    → (own_card u id w).0 ≡ ok c
    → (select_one (is_card id) w.tables.cards ≡ some c)
      × ((d : Deck) × (select_one (is_deck c.deck_id) w.tables.decks ≡ some d) × (d.user_id ≡ u))
unfolding own_card
own_card-found u id w c h =
    let (card, a1, h1, e1) = bind-ok (get_card id) _ w c h in
    let w1 = (get_card id w).1 in
    let t1 = (IsReadOnly-get_card id).tables w in
    let (d, a2, h2, e2) = bind-ok (get_deck card.deck_id) _ w1 c h1 in
    let (stored, t2) = get_deck-ok card.deck_id w1 d a2 in
    let (mine, h3, e3) =
      raise_if-ok (not (d.user_id == u)) forbidden (pure card) (get_deck card.deck_id w1).1 c h2 in
    let same : card ≡ c = ground arith in
    (
      get_card-ok id w card a1 ∙ ap some same,
      (
        d,
        ap₂ (λ (t : Tables) (k : Card). select_one (is_deck k.deck_id) t.decks) (sym t1) (sym same)
            ∙ stored,
        ground arith,
      ),
    )
