-- ===== src/Decks/Transfer.antt =====
-- Export and Import of internal/service/deck.go, one after the other.
use mathlib.Core.Path.{fun_ext, ap₂}
use mathlib.Core.List.{append-nil, append_assoc}
use backend_quiz.Common.{
  ℕ, suc, ◌+◌, ◌≡◌, ◌≤◌, ◌<◌, refl, sym, ap, Bool, true, none, some, List, [], ◌∷◌, ◌++◌, map,
  or_default, arith, length, select_one, select_where, count_where, ==-refl, take_all,
  select_one-append_none, select_where-append,
}
use backend_quiz.Common.{pos, int32, int32_id}
use backend_quiz.Common.Text.{Text}
use backend_quiz.Domain.{Result, ok}
use backend_quiz.Domain.Card.{Env, Card, content_type_plain}
use backend_quiz.Domain.Deck.{Deck, ExportCard, ExportDeck, ImportDeckRequest}
use backend_quiz.Db.{World, calm, exec, transact, active}
use backend_quiz.Repository.Tables.{Tables}
use backend_quiz.Repository.Cards.{
  new_card, in_deck, create_card_row, create_card_rows, bulk_create_cards, list_cards, matches,
  order_cards, insert_card, listed_before, take_page,
}
use backend_quiz.Repository.Decks.{is_deck, get_deck, create_deck_row}
use backend_quiz.Decks.{
  own_deck, deck_of, import_card, import_cards, import_deck, export_card, export_deck, no_filter,
}

-- the row of a card of the request, and the rows of all of them
unfoldable pub imported_row : Env → ℕ → ℕ → ℕ → ExportCard → Card
imported_row env deck_id id i c =
    new_card env
      (record (import_card deck_id i c) {
        content_type = content_type_plain;
        position = int32 (pos i);
      })
      id

unfoldable pub imported_rows : Env → ℕ → ℕ → ℕ → List ExportCard → List Card
imported_rows env deck_id id i [] = []
imported_rows env deck_id id i (c ∷ cs) =
    imported_row env deck_id id i c ∷ imported_rows env deck_id (id + 1) (suc i) cs

abbrev pub imported_deck : Env → ℕ → ImportDeckRequest → Tables → Deck
imported_deck env u req t = record (deck_of u req.name [] none) {
  id = t.fresh_id;
  created_at = env.now;
  updated_at = env.now;
}

abbrev in_transaction : Tables → World Tables
in_transaction t = record { tables = t; tx = active; faults = [] }

abbrev with_cards : Tables → List Card → ℕ → Tables
with_cards t rows n = record t { cards = t.cards ++ rows; fresh_id = t.fresh_id + n }

-- the rows after an Import that is not refused
abbrev pub after_import : Env → ℕ → ImportDeckRequest → Tables → Tables
after_import env u req t = record t {
  decks = t.decks ++ imported_deck env u req t ∷ [];
  cards = t.cards ++ imported_rows env t.fresh_id (t.fresh_id + 1) 0 req.cards;
  fresh_id = t.fresh_id + 1 + length req.cards;
}

-- a run inside of a transaction, by the cards and the counter that it leaves
abbrev ran : {A : Type 0} → A → Tables → List Card → ℕ → Result A × World Tables
ran a t cards id = (ok a, in_transaction (record t { cards = cards; fresh_id = id }))

create_card_rows-calm :
    (env : Env) (deck_id i : ℕ) (cs : List ExportCard) (t : Tables)
    → create_card_rows env (import_cards deck_id i cs) (in_transaction t)
      ≡ ran
          (imported_rows env deck_id t.fresh_id i cs)
          t
          (t.cards ++ imported_rows env deck_id t.fresh_id i cs)
          (t.fresh_id + length cs)
unfolding create_card_rows import_cards imported_rows create_card_row exec imported_row
create_card_rows-calm env deck_id i [] t =
    ap₂ (ran [] t) (sym (append-nil t.cards))
      (let e : t.fresh_id ≡ t.fresh_id + 0 = omega arith in e)
create_card_rows-calm env deck_id i (c ∷ cs) t =
    let row = imported_row env deck_id t.fresh_id i c in
    let rows = imported_rows env deck_id (t.fresh_id + 1) (suc i) cs in
    rw
      (create_card_rows-calm env deck_id (suc i) cs
        (record t { cards = t.cards ++ row ∷ []; fresh_id = t.fresh_id + 1 }))
      (ap₂ (ran (row ∷ rows) t) (append_assoc t.cards (row ∷ []) rows)
        (let e : t.fresh_id + 1 + length cs ≡ t.fresh_id + suc (length cs) = omega arith in e))

import_deck-calm :
    (env : Env) (u : ℕ) (req : ImportDeckRequest) (t : Tables)
    → import_deck env u req (calm t)
      ≡ (ok (imported_deck env u req t), calm (after_import env u req t))
unfolding import_deck transact create_deck_row exec bulk_create_cards create_card_rows imported_rows
    int32
import_deck-calm env u req t = rw (
    create_card_rows-calm env t.fresh_id 0 req.cards
      (record t { decks = t.decks ++ imported_deck env u req t ∷ []; fresh_id = t.fresh_id + 1 }))

-- the cards of the new deck, in the order of the request
module _ (env : Env) (deck_id : ℕ) where
  imported-in_deck :
      (id i : ℕ) (cs : List ExportCard)
      → select_where (in_deck deck_id) (imported_rows env deck_id id i cs)
        ≡ imported_rows env deck_id id i cs
  unfolding imported_rows imported_row new_card
  imported-in_deck id i [] = refl
  imported-in_deck id i (c ∷ cs) =
      ground (arith, ==-refl deck_id, imported-in_deck (id + 1) (suc i) cs)

  listed_before-imported :
      (id i : ℕ) (c d : ExportCard)
      → i < 2147483647
      → listed_before
          (imported_row env deck_id id i c)
          (imported_row env deck_id (id + 1) (suc i) d)
        ≡ true
  unfolding listed_before imported_row new_card
  listed_before-imported id i c d h =
      rw
        (
          int32_id (pos i) (omega arith, omega arith),
          int32_id (pos (suc i)) (omega arith, omega arith),
        )
        (ground arith)

  order_cards-imported :
      (id i : ℕ) (cs : List ExportCard)
      → i + length cs ≤ 2147483647
      → order_cards (imported_rows env deck_id id i cs) ≡ imported_rows env deck_id id i cs
  unfolding order_cards imported_rows insert_card
  order_cards-imported id i [] h = refl
  order_cards-imported id i (c ∷ []) h = refl
  order_cards-imported id i (c ∷ d ∷ cs) h = rw (
    order_cards-imported (id + 1) (suc i) (d ∷ cs) (omega (arith, h)),
    listed_before-imported id i c d (omega (arith, h)),
  )

  length-imported_rows :
      (id i : ℕ) (cs : List ExportCard) → length (imported_rows env deck_id id i cs) ≡ length cs
  unfolding imported_rows
  length-imported_rows id i [] = refl
  length-imported_rows id i (c ∷ cs) = ap suc (length-imported_rows (id + 1) (suc i) cs)

-- a card as it comes back: a nil list of tags is stored as an empty one
abbrev pub with_tags : ExportCard → ExportCard
with_tags c = record c { tags = some (or_default c.tags []) }

export-imported :
    (env : Env) (deck_id id i : ℕ) (cs : List ExportCard)
    → map export_card (imported_rows env deck_id id i cs) ≡ map with_tags cs
unfolding imported_rows imported_row new_card
export-imported env deck_id id i [] = refl
export-imported env deck_id id i (c ∷ cs) =
    ap (λ xs. with_tags c ∷ xs) (export-imported env deck_id (id + 1) (suc i) cs)

matches-no_filter :
    (ilike : Text → Text → Bool) (deck_id : ℕ) → matches ilike deck_id no_filter ≡ in_deck deck_id
unfolding matches
matches-no_filter ilike deck_id = fun_ext λ c. ground arith

-- gen_random_uuid() draws an id that no deck has, and to which no card refers
pub record IsFresh (t : Tables) : Type 0 where
  pub decks : select_one (is_deck t.fresh_id) t.decks ≡ none
  pub cards : select_where (in_deck t.fresh_id) t.cards ≡ []

module _ (env : Env) (u : ℕ) (req : ImportDeckRequest) (t : Tables) (fresh : IsFresh t) where
  abbrev rows : List Card
  rows = imported_rows env t.fresh_id (t.fresh_id + 1) 0 req.cards

  imported-own_deck :
      own_deck u t.fresh_id (calm (after_import env u req t))
      ≡ (ok (imported_deck env u req t), calm (after_import env u req t))
  unfolding own_deck get_deck exec
  imported-own_deck = rw (
    select_one-append_none (is_deck t.fresh_id) t.decks (imported_deck env u req t ∷ [])
        fresh.decks,
    ==-refl t.fresh_id,
    ==-refl u,
  )

  imported-selected :
      (ilike : Text → Text → Bool)
      → select_where (matches ilike t.fresh_id no_filter) (after_import env u req t).cards ≡ rows
  imported-selected ilike =
      rw
        (
          matches-no_filter ilike t.fresh_id,
          select_where-append (in_deck t.fresh_id) t.cards rows,
          fresh.cards,
        )
        (imported-in_deck env t.fresh_id (t.fresh_id + 1) 0 req.cards)

  imported-list_cards :
      (ilike : Text → Text → Bool)
      → length req.cards ≤ 10000
      → list_cards ilike t.fresh_id no_filter (pos 10000) (pos 0) (calm (after_import env u req t))
        ≡ (
          ok (rows, pos (count_where (matches ilike t.fresh_id no_filter) (t.cards ++ rows))),
          calm (after_import env u req t),
        )
  unfolding list_cards exec take_page int32
  imported-list_cards ilike short = rw (
    imported-selected ilike,
    order_cards-imported env t.fresh_id (t.fresh_id + 1) 0 req.cards (omega (arith, short)),
    take_all 10000 rows (
        let e : length rows ≤ 10000 =
          rw (length-imported_rows env t.fresh_id (t.fresh_id + 1) 0 req.cards) short in
        e),
  )

-- Import and then Export, with no statement refused and at most 10000 cards, give back the name
-- and the cards of the request in their order, as json.MarshalIndent writes them. A description
-- is not imported, and a nil list of tags comes back as an empty one.
pub export_deck-import_deck :
    (env : Env) (marshal : ExportDeck → Result Text) (ilike : Text → Text → Bool) (u : ℕ)
    (req : ImportDeckRequest) (t : Tables)
    → IsFresh t
    → length req.cards ≤ 10000
    → (deck : Deck) × (rows : Tables) × (import_deck env u req (calm t) ≡ (ok deck, calm rows))
      × (export_deck marshal ilike u deck.id (calm rows) ≡ (
        marshal (record { name = req.name; description = []; cards = map with_tags req.cards }),
        calm rows,
      ))
unfolding export_deck
export_deck-import_deck env marshal ilike u req t fresh short = (
  imported_deck env u req t,
  after_import env u req t,
  import_deck-calm env u req t,
  rw (
    imported-own_deck env u req t fresh,
    imported-list_cards env u req t fresh ilike short,
    export-imported env t.fresh_id (t.fresh_id + 1) 0 req.cards,
  ),
)
