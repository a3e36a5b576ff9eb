-- ===== src/Cards/Kept.antt =====
-- The statements on decks and cards, as they leave a deck and one card of it alone.
use mathlib.Core.Path.{subst}
use backend_quiz.Common.{
  ℕ, ◌==◌, ◌≡◌, ◌<◌, sym, ◌∙◌, false, Option, none, some, List, [], ◌∷◌, arith, select_one,
  update_where, select_one-append, select_one-update_where_ne, select_one-delete_where,
  select_one-delete_miss,
}
use backend_quiz.Common.Text.{Text}
use backend_quiz.Domain.Card.{Env, Card}
use backend_quiz.Domain.Deck.{Deck, DeckShare}
use backend_quiz.Db.{exec}
use backend_quiz.Db.Rules.{Keeps, Keeps-exec, Keeps-transact}
use backend_quiz.Db.Compose.{Keeps-bind, IsReadOnly-Keeps, IsReadOnly-pure, IsReadOnly-raise}
use backend_quiz.Repository.Tables.{Tables}
use backend_quiz.Repository.Cards.{
  is_card, in_deck, create_card_row, create_card_rows, bulk_create_cards, delete_card_row,
}
use backend_quiz.Repository.Decks.{
  is_deck, create_deck_row, update_deck_row, delete_deck_row, create_share_row, delete_share_row,
  clone_deck_row, clone_body, insert_clone, insert_cards, or_error, write_deck,
}

-- a deck and one card of it, of another user than those of the requests
module _ (row : Deck) (card : Card) where
  pub record IsStored (t : Tables) : Type 0 where
    pub deck_row : select_one (is_deck card.deck_id) t.decks ≡ some row
    pub card_row : select_one (is_card card.id) t.cards ≡ some card
    pub is_old : card.deck_id < t.fresh_id

  -- statements that leave the deck and the card alone
  pub Keeps-rows :
      {A : Type 0} (op : Tables → A × Tables)
      → ((t : Tables) → IsStored t → select_one (is_deck card.deck_id) (op t).1.decks ≡ some row)
      → ((t : Tables) → IsStored t → select_one (is_card card.id) (op t).1.cards ≡ some card)
      → ((t : Tables) → IsStored t → card.deck_id < (op t).1.fresh_id)
      → Keeps IsStored (exec op)
  Keeps-rows op d c o =
      Keeps-exec op λ t s. record { deck_row = d t s; card_row = c t s; is_old = o t s }

  pub Keeps-create_deck_row : (env : Env) (d : Deck) → Keeps IsStored (create_deck_row env d)
  unfolding create_deck_row
  Keeps-create_deck_row env d =
      Keeps-rows _ (λ t s. select_one-append (is_deck card.deck_id) t.decks _ row s.deck_row)
        (λ t s. s.card_row) (λ t s. omega (arith, s.is_old))

  pub Keeps-create_card_row : (env : Env) (c : Card) → Keeps IsStored (create_card_row env c)
  unfolding create_card_row
  Keeps-create_card_row env c =
      Keeps-rows _ (λ t s. s.deck_row)
        (λ t s. select_one-append (is_card card.id) t.cards _ card s.card_row)
        (λ t s. omega (arith, s.is_old))

  pub Keeps-create_card_rows :
      (env : Env) (cs : List Card) → Keeps IsStored (create_card_rows env cs)
  unfolding create_card_rows
  Keeps-create_card_rows env [] = IsReadOnly-Keeps (IsReadOnly-pure _)
  Keeps-create_card_rows env (c ∷ cs) =
      Keeps-bind (Keeps-create_card_row env c)
        λ x. Keeps-bind (Keeps-create_card_rows env cs) λ rows. IsReadOnly-Keeps (IsReadOnly-pure _)

  pub Keeps-bulk_create_cards :
      (env : Env) (cs : List Card) → Keeps IsStored (bulk_create_cards env cs)
  unfolding bulk_create_cards
  Keeps-bulk_create_cards env cs = Keeps-transact (Keeps-create_card_rows env cs)

  pub Keeps-or_error : (o : Option Deck) → Keeps IsStored (or_error o)
  Keeps-or_error none = IsReadOnly-Keeps (IsReadOnly-raise _)
  Keeps-or_error (some d) = IsReadOnly-Keeps (IsReadOnly-pure _)

  pub Keeps-update_deck_row :
      (env : Env) (d : Deck)
      → (d.id == card.deck_id) ≡ false
      → Keeps IsStored (update_deck_row env d)
  unfolding update_deck_row
  Keeps-update_deck_row env d ne =
      Keeps-bind
        (Keeps-rows _
          (λ t s.
            select_one-update_where_ne (is_deck card.deck_id) (is_deck d.id) (write_deck env d)
              t.decks (λ x e. ground arith)
            ∙ s.deck_row)
          (λ t s. s.card_row) (λ t s. s.is_old))
        Keeps-or_error

  pub Keeps-delete_deck_row :
      (id : ℕ) → (id == card.deck_id) ≡ false → Keeps IsStored (delete_deck_row id)
  unfolding delete_deck_row
  Keeps-delete_deck_row id ne =
      Keeps-rows _
        (λ t s.
          select_one-delete_where (is_deck card.deck_id) (is_deck id) t.decks (λ x e. ground arith)
          ∙ s.deck_row)
        (λ t s.
          select_one-delete_miss (is_card card.id) (in_deck id) t.cards card s.card_row
            (ground arith))
        (λ t s. s.is_old)

  pub Keeps-create_share_row : (env : Env) (x : DeckShare) → Keeps IsStored (create_share_row env x)
  unfolding create_share_row
  Keeps-create_share_row env x =
      Keeps-rows _ (λ t s. s.deck_row) (λ t s. s.card_row) (λ t s. omega (arith, s.is_old))

  pub Keeps-delete_share_row : (id : ℕ) → Keeps IsStored (delete_share_row id)
  unfolding delete_share_row
  Keeps-delete_share_row id = Keeps-rows _ (λ t s. s.deck_row) (λ t s. s.card_row) (λ t s. s.is_old)

  pub IsStored-insert_clone :
      (env : Env) (u : ℕ) (name : Text) (o : Option Deck) (t : Tables)
      → IsStored t
      → IsStored (insert_clone env u name o t).1
  unfolding insert_clone
  IsStored-insert_clone env u name none t s = s
  IsStored-insert_clone env u name (some d) t s = record {
    deck_row = select_one-append (is_deck card.deck_id) t.decks _ row s.deck_row;
    card_row = s.card_row;
    is_old = omega (arith, s.is_old);
  }

  pub Keeps-clone_deck_row :
      (env : Env) (source u : ℕ) (name : Text) → Keeps IsStored (clone_deck_row env source u name)
  unfolding clone_deck_row clone_body insert_clone insert_cards
  Keeps-clone_deck_row env source u name = Keeps-transact (
      Keeps-bind
        (Keeps-exec _
          λ t s. IsStored-insert_clone env u name (select_one (is_deck source) t.decks) t s)
        λ o. Keeps-bind (Keeps-or_error o) λ d.
          Keeps-bind
            (Keeps-rows _ (λ t s. s.deck_row)
              (λ t s. select_one-append (is_card card.id) t.cards _ card s.card_row)
              (λ t s. omega (arith, s.is_old)))
            λ x. IsReadOnly-Keeps (IsReadOnly-pure _))

  -- a statement on the cards of another id
  pub Keeps-update_other :
      (id : ℕ) (f : Card → Card) (op : Tables → Unit {0} × Tables)
      → (id == card.id) ≡ false
      → ((c : Card) → (f c).id ≡ c.id)
      → ((t : Tables) → (op t).1 ≡ record t { cards = update_where (is_card id) f t.cards })
      → Keeps IsStored (exec op)
  Keeps-update_other id f op ne keep e = Keeps-exec op λ t s. subst IsStored (sym (e t)) (record {
    deck_row = s.deck_row;
    card_row =
        select_one-update_where_ne (is_card card.id) (is_card id) f t.cards
          (λ x h. ground (arith, keep x))
        ∙ s.card_row;
    is_old = s.is_old;
  })

  pub Keeps-delete_card_row :
      (id : ℕ) → (id == card.id) ≡ false → Keeps IsStored (delete_card_row id)
  unfolding delete_card_row
  Keeps-delete_card_row id ne =
      Keeps-rows _ (λ t s. s.deck_row)
        (λ t s.
          select_one-delete_where (is_card card.id) (is_card id) t.cards (λ x e. ground arith)
          ∙ s.card_row)
        (λ t s. s.is_old)
