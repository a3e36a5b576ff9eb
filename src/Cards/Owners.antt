-- ===== src/Cards/Owners.antt =====
-- What the requests of one user to internal/service/{deck,card}.go do to the decks and cards of
-- another.
use mathlib.Core.Option.{some_inj}
use backend_quiz.Common.{
  ℕ, ◌==◌, ◌≡◌, ◌≢◌, refl, sym, ap, ◌∙◌, false, none, some, List, [], ◌∷◌, arith, select_one,
  ==_iff, inl, inr, Bool-cases, select_one_sound,
}
use backend_quiz.Domain.{ok}
use backend_quiz.Domain.Card.{Card}
use backend_quiz.Domain.Deck.{Deck}
use backend_quiz.Db.{World, M, ◌>>=◌}
use backend_quiz.Db.Rules.{Keeps, Keeps-transact}
use backend_quiz.Db.Compose.{
  Keeps-bind, Keeps-bind_given, Keeps-ignore, IsReadOnly-Keeps, IsReadOnly-pure,
}
use backend_quiz.Repository.Tables.{Tables}
use backend_quiz.Repository.Cards.{is_card, update_card_row, set_suspended, reset_fsrs}
use backend_quiz.Repository.Cards.Laws.{IsReadOnly-get_card}
use backend_quiz.Repository.Decks.{is_deck}
use backend_quiz.Repository.Decks.Laws.{IsReadOnly-get_deck, IsReadOnly-get_share_by_code}
use backend_quiz.Decks.{
  share_of, own_deck, create_deck, update_deck, delete_deck, share_deck, unshare_deck, clone_deck,
  import_deck, import_cards, deck_of, merge_deck,
}
use backend_quiz.Cards.{
  own_card, create_card, batch_create_cards, cards_from, update_card, delete_card, reset_card,
  suspend_card, merge_card,
}
use backend_quiz.Cards.Requests.{
  Request, create, update, delete, share, unshare, clone, import_from, add, add_batch, change,
  remove, reset, suspend, handle, handle_all, IsReadOnly-own_deck, IsReadOnly-own_card,
  own_deck-found, own_card-found,
}
use backend_quiz.Cards.Kept.{
  IsStored, Keeps-create_deck_row, Keeps-create_card_row, Keeps-bulk_create_cards,
  Keeps-update_deck_row, Keeps-delete_deck_row, Keeps-create_share_row, Keeps-delete_share_row,
  Keeps-clone_deck_row, Keeps-update_other, Keeps-delete_card_row,
}

module _ (row : Deck) (card : Card) where
  module _ (u : ℕ) (stranger : row.user_id ≢ u) where
    -- the user's own deck is another one, and so is a card of it
    other_deck :
        (id : ℕ) (w : World Tables) (d : Deck)
        → IsStored row card w.tables
        → (own_deck u id w).0 ≡ ok d
        → ((id == card.deck_id) ≡ false) × (d.id ≡ id)
    other_deck id w d s h =
        let (found, mine) = own_deck-found u id w d h in
        (
          elim (Bool-cases (id == card.deck_id)) [
            | inl e ↦
                let same : some d ≡ some row =
                  sym found
                  ∙ ap (λ k. select_one (is_deck k) w.tables.decks) ((==_iff id card.deck_id).0 e)
                  ∙ s.deck_row in
                absurd (stranger (ap (λ (x : Deck). x.user_id) (sym (some_inj.0 same)) ∙ mine))
            | inr e ↦ e
          ],
          (==_iff d.id id).0 (select_one_sound (is_deck id) w.tables.decks d found),
        )

    other_card :
        (id : ℕ) (w : World Tables) (c : Card)
        → IsStored row card w.tables
        → (own_card u id w).0 ≡ ok c
        → ((id == card.id) ≡ false) × (c.id ≡ id)
    other_card id w c s h =
        let (found, (d, stored, mine)) = own_card-found u id w c h in
        (
          elim (Bool-cases (id == card.id)) [
            | inl e ↦
                let same : some c ≡ some card =
                  sym found
                  ∙ ap (λ k. select_one (is_card k) w.tables.cards) ((==_iff id card.id).0 e)
                  ∙ s.card_row in
                let deck : some d ≡ some row =
                  sym stored
                  ∙ ap (λ (x : Card). select_one (is_deck x.deck_id) w.tables.decks)
                      (some_inj.0 same)
                  ∙ s.deck_row in
                absurd (stranger (ap (λ (x : Deck). x.user_id) (sym (some_inj.0 deck)) ∙ mine))
            | inr e ↦ e
          ],
          (==_iff c.id id).0 (select_one_sound (is_card id) w.tables.cards c found),
        )

    Keeps-on_deck :
        {A : Type 0} (id : ℕ) (f : Deck → M Tables A)
        → ((d : Deck)
            → ((id == card.deck_id) ≡ false) × (d.id ≡ id)
            → Keeps (IsStored row card) (f d))
        → Keeps (IsStored row card) (own_deck u id >>= f)
    Keeps-on_deck id f k =
        Keeps-bind_given (λ d. ((id == card.deck_id) ≡ false) × (d.id ≡ id))
          (IsReadOnly-Keeps (IsReadOnly-own_deck u id)) (λ w d. other_deck id w d) k

    Keeps-on_card :
        {A : Type 0} (id : ℕ) (f : Card → M Tables A)
        → ((c : Card) → ((id == card.id) ≡ false) × (c.id ≡ id) → Keeps (IsStored row card) (f c))
        → Keeps (IsStored row card) (own_card u id >>= f)
    Keeps-on_card id f k =
        Keeps-bind_given (λ c. ((id == card.id) ≡ false) × (c.id ≡ id))
          (IsReadOnly-Keeps (IsReadOnly-own_card u id)) (λ w c. other_card id w c) k

    handle-IsStored :
        (r : Request) (w : World Tables)
        → IsStored row card w.tables
        → IsStored row card (handle u r w).tables
    unfolding handle create_deck update_deck delete_deck share_deck unshare_deck clone_deck
        import_deck create_card batch_create_cards update_card delete_card reset_card suspend_card
        update_card_row reset_fsrs set_suspended merge_deck merge_card
    handle-IsStored (create env req) w s = (Keeps-create_deck_row row card env _).at w s
    handle-IsStored (update env id req) w s =
        (Keeps-on_deck id _
            λ d (ne, e). Keeps-update_deck_row row card env (merge_deck req d) (ground arith)).at
          w s
    handle-IsStored (delete id) w s =
        (Keeps-on_deck id _ λ d h. Keeps-delete_deck_row row card id h.0).at w s
    handle-IsStored (share env code id req) w s =
        (Keeps-on_deck id _ λ d h.
            Keeps-bind (Keeps-ignore (Keeps-delete_share_row row card id))
              λ x. Keeps-create_share_row row card env (share_of code id req)).at
          w s
    handle-IsStored (unshare id) w s =
        (Keeps-on_deck id _ λ d h. Keeps-delete_share_row row card id).at w s
    handle-IsStored (clone env code) w s =
        (Keeps-bind (IsReadOnly-Keeps (IsReadOnly-get_share_by_code code)) λ x.
            Keeps-bind (IsReadOnly-Keeps (IsReadOnly-get_deck x.deck_id))
              λ d. Keeps-clone_deck_row row card env d.id u d.name).at
          w s
    handle-IsStored (import_from env req) w s =
        (Keeps-transact (
            Keeps-bind (Keeps-create_deck_row row card env (deck_of u req.name [] none)) λ d.
              Keeps-bind (Keeps-bulk_create_cards row card env (import_cards d.id 0 req.cards))
                λ rows. IsReadOnly-Keeps (IsReadOnly-pure d))).at
          w s
    handle-IsStored (add env id req) w s =
        (Keeps-on_deck id _ λ d h. Keeps-create_card_row row card env _).at w s
    handle-IsStored (add_batch env id reqs) w s =
        (Keeps-on_deck id _ λ d h. Keeps-bulk_create_cards row card env (cards_from id 0 reqs)).at w
          s
    handle-IsStored (change env id req) w s =
        (Keeps-on_card id _ λ c h.
            Keeps-bind
              (Keeps-update_other row card c.id _ _ (ap (λ k. k == card.id) h.1 ∙ h.0) (λ c. refl)
                (λ t. refl))
              λ x. IsReadOnly-Keeps (IsReadOnly-pure _)).at
          w s
    handle-IsStored (remove id) w s =
        (Keeps-on_card id _ λ c h. Keeps-delete_card_row row card id h.0).at w s
    handle-IsStored (reset env id) w s =
        (Keeps-on_card id _ λ c h.
            Keeps-bind (Keeps-update_other row card id _ _ h.0 (λ c. refl) (λ t. refl))
              λ x. IsReadOnly-Keeps (IsReadOnly-get_card id)).at
          w s
    handle-IsStored (suspend env id b) w s =
        (Keeps-on_card id _
            λ c h. Keeps-update_other row card id _ _ h.0 (λ c. refl) (λ t. refl)).at
          w s

-- none of the requests is of this user
unfoldable pub NoneBy : ℕ → List (ℕ × Request) → Type 0
NoneBy u [] = Unit
NoneBy u ((v, r) ∷ rs) = (u ≢ v) × NoneBy u rs

-- A stored deck and each of its stored cards stay exactly as they are, whatever sequence of
-- requests on decks and cards other users make and whatever statements the server refuses.
pub others_rows_kept :
    (row : Deck) (card : Card) (rs : List (ℕ × Request)) (w : World Tables)
    → IsStored row card w.tables
    → NoneBy row.user_id rs
    → IsStored row card (handle_all rs w).tables
unfolding handle_all NoneBy
others_rows_kept row card [] w s others = s
others_rows_kept row card ((u, r) ∷ rs) w s others =
    others_rows_kept row card rs (handle u r w) (handle-IsStored row card u others.0 r w s) others.1
