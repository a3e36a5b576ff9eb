-- ===== src/Decks/Cloned.antt =====
-- Clone of internal/service/deck.go.
use mathlib.Core.Path.{subst, ap₂}
use backend_quiz.Common.{
  ℕ, ◌+◌, ◌≡◌, refl, sym, ap, ◌∙◌, some, List, [], ◌∷◌, ◌++◌, map, arith, length, select_one,
  select_where, ==-refl, ==_iff, select_one_sound, select_where-append,
}
use backend_quiz.Common.{ℤ}
use backend_quiz.Common.Text.{Text}
use backend_quiz.Domain.{Result, ok}
use backend_quiz.Domain.Card.{Env, Card}
use backend_quiz.Domain.Deck.{Deck, DeckShare}
use backend_quiz.Db.{World, exec}
use backend_quiz.Db.Rules.{Ensures-transact}
use backend_quiz.Db.Compose.{bind-ok}
use backend_quiz.Repository.Tables.{Tables}
use backend_quiz.Repository.Cards.{in_deck, order_cards, new_card}
use backend_quiz.Repository.Decks.{
  is_deck, has_code, get_deck, get_share_by_code, clone_row, clone_cards, clone_card, insert_clone,
  insert_cards, clone_body, clone_deck_row,
}
use backend_quiz.Repository.Decks.Laws.{get_deck-ok, get_share_by_code-ok}
use backend_quiz.Decks.{clone_deck}
use backend_quiz.Decks.Transfer.{IsFresh}

-- the cards of a deck in the order of their positions
abbrev pub cards_of : ℕ → Tables → List Card
cards_of deck_id t = order_cards (select_where (in_deck deck_id) t.cards)

-- the rows after a clone: one more deck, and its cards
abbrev pub after_clone : Env → ℕ → Deck → Tables → Tables
after_clone env u source t = record t {
  decks = t.decks ++ clone_row env u source.name source t.fresh_id ∷ [];
  cards = t.cards ++ clone_cards env t.fresh_id (t.fresh_id + 1) (cards_of source.id t);
  fresh_id = t.fresh_id + 1 + length (cards_of source.id t);
}

-- What a clone that is not refused was made from, and what it has done.
pub record CloneEffect (env : Env) (u : ℕ) (code : Text) (t t' : Tables) (deck : Deck)
    (share : DeckShare) (source : Deck) : Type 0 where
  pub shared : select_one (has_code code) t.deck_shares ≡ some share
  pub stored : select_one (is_deck share.deck_id) t.decks ≡ some source
  pub deck_row : deck ≡ clone_row env u source.name source t.fresh_id
  pub rows : t' ≡ after_clone env u source t
  pub owner : deck.user_id ≡ u
  pub named : (deck.name ≡ source.name) × (deck.description ≡ source.description)

module _ (env : Env) (u : ℕ) (source : Deck) where
  abbrev Cloned : Tables → Deck → Tables → Type 0
  Cloned t deck t' =
      (deck ≡ clone_row env u source.name source t.fresh_id) × (t' ≡ after_clone env u source t)

  clone_body-ok :
      (w : World Tables) (deck : Deck)
      → select_one (is_deck source.id) w.tables.decks ≡ some source
      → (clone_body env source.id u source.name w).0 ≡ ok deck
      → Cloned w.tables deck (clone_body env source.id u source.name w).1.tables
  unfolding clone_body insert_clone insert_cards exec clone_row
  clone_body-ok w deck stored h = ground arith

  clone_deck_row-ok :
      (w : World Tables) (deck : Deck)
      → select_one (is_deck source.id) w.tables.decks ≡ some source
      → (clone_deck_row env source.id u source.name w).0 ≡ ok deck
      → Cloned w.tables deck (clone_deck_row env source.id u source.name w).1.tables
  unfolding clone_deck_row
  clone_deck_row-ok w deck stored h =
      (Ensures-transact {P = λ t'. t' ≡ w.tables} {Q = Cloned w.tables} (record {
        at = λ v d e g.
            subst (λ t. Cloned t d (clone_body env source.id u source.name v).1.tables) e
              (clone_body-ok v d
                (ap (λ (t : Tables). select_one (is_deck source.id) t.decks) e ∙ stored) g);
      })).at
        w deck refl h

-- A clone that returns no error was made by a code of a stored share of a stored deck, whatever
-- statements the server refuses. It has added exactly one deck of the user, with the name and the
-- description of the source, and the source's cards in the order of their positions.
pub clone_deck_effect :
    (env : Env) (u : ℕ) (code : Text) (w : World Tables) (deck : Deck)
    → (clone_deck env u code w).0 ≡ ok deck
    → (share : DeckShare) × (source : Deck) × CloneEffect env u code w.tables
        (clone_deck env u code w).1.tables
        deck
        share
        source
unfolding clone_deck clone_row
clone_deck_effect env u code w deck h =
    let (share, a1, h1, e1) = bind-ok (get_share_by_code code) _ w deck h in
    let w1 = (get_share_by_code code w).1 in
    let (shared, t1) = get_share_by_code-ok code w share a1 in
    let (source, a2, h2, e2) = bind-ok (get_deck share.deck_id) _ w1 deck h1 in
    let w2 = (get_deck share.deck_id w1).1 in
    let (stored, t2) = get_deck-ok share.deck_id w1 source a2 in
    let own =
      (==_iff source.id share.deck_id).0
        (select_one_sound (is_deck share.deck_id) w1.tables.decks source stored) in
    let stored2 : select_one (is_deck source.id) w2.tables.decks ≡ some source =
      subst (λ k. select_one (is_deck k) w2.tables.decks ≡ some source) (sym own)
        (ap (λ (t : Tables). select_one (is_deck share.deck_id) t.decks) t2 ∙ stored) in
    let same : w2.tables ≡ w.tables = t2 ∙ t1 in
    let done =
      subst
        (λ t. Cloned env u source t deck (clone_deck_row env source.id u source.name w2).1.tables)
        same (clone_deck_row-ok env u source w2 deck stored2 h2) in
    (
      share,
      source,
      record {
        shared = shared;
        stored = sym (ap (λ (t : Tables). select_one (is_deck share.deck_id) t.decks) t1) ∙ stored;
        deck_row = done.0;
        rows = ap (λ (x : Result Deck × World Tables). x.1.tables) (e1 ∙ e2) ∙ done.1;
        owner = ap (λ (d : Deck). d.user_id) done.0;
        named = (ap (λ (d : Deck). d.name) done.0, ap (λ (d : Deck). d.description) done.0);
      },
    )

-- what a clone copies of a card
abbrev pub Content : Type 0
Content = Text × Text × Text × List Text × ℤ

abbrev pub content : Card → Content
content c = (c.front, c.back, c.content_type, c.tags, c.position)

module _ (env : Env) where
  content-clone_cards :
      (deck_id id : ℕ) (cs : List Card)
      → map content (clone_cards env deck_id id cs) ≡ map content cs
  unfolding clone_cards clone_card new_card
  content-clone_cards deck_id id [] = refl
  content-clone_cards deck_id id (c ∷ cs) =
      ap (λ xs. content c ∷ xs) (content-clone_cards deck_id (id + 1) cs)

  clone_cards-own :
      (deck_id id : ℕ) (cs : List Card)
      → select_where (in_deck deck_id) (clone_cards env deck_id id cs)
        ≡ clone_cards env deck_id id cs
  unfolding clone_cards clone_card new_card
  clone_cards-own deck_id id [] = refl
  clone_cards-own deck_id id (c ∷ cs) =
      ground (arith, ==-refl deck_id, clone_cards-own deck_id (id + 1) cs)

-- A clone that returns no error has, in the new deck, cards with the source's fronts, backs, types,
-- tags and positions, in the order of the positions, where the new deck's id was not in use.
pub clone_deck_cards :
    (env : Env) (u : ℕ) (code : Text) (w : World Tables) (deck : Deck)
    → IsFresh w.tables
    → (clone_deck env u code w).0 ≡ ok deck
    → (share : DeckShare) × (select_one (has_code code) w.tables.deck_shares ≡ some share)
      × (map content (select_where (in_deck deck.id) (clone_deck env u code w).1.tables.cards)
          ≡ map content (cards_of share.deck_id w.tables))
unfolding clone_row
clone_deck_cards env u code w deck fresh h =
    let (share, source, e) = clone_deck_effect env u code w deck h in
    let t = w.tables in
    let copies = clone_cards env t.fresh_id (t.fresh_id + 1) (cards_of source.id t) in
    let id = ap (λ (d : Deck). d.id) e.deck_row in
    let own =
      (==_iff source.id share.deck_id).0
        (select_one_sound (is_deck share.deck_id) t.decks source e.stored) in
    (
      share,
      e.shared,
      ap₂ (λ k (t' : Tables). map content (select_where (in_deck k) t'.cards)) id e.rows
          ∙ ap (map content) (
              select_where-append (in_deck t.fresh_id) t.cards copies
              ∙ ap (λ xs. xs ++ select_where (in_deck t.fresh_id) copies) fresh.cards
              ∙ clone_cards-own env t.fresh_id (t.fresh_id + 1) (cards_of source.id t))
          ∙ content-clone_cards env t.fresh_id (t.fresh_id + 1) (cards_of source.id t)
          ∙ ap (λ k. map content (cards_of k t)) own,
    )
