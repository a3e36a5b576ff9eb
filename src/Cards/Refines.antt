-- ===== src/Cards/Refines.antt =====
-- The card requests of internal/service/card.go refine the steps of `Cards.Store`.
use mathlib.Core.Path.{subst, fun_ext}
use backend_quiz.Common.{
  ℕ, ◌==◌, ◌≡◌, refl, sym, ap, ◌∙◌, Bool, false, Option, none, some, List, [], ◌∷◌, arith,
  select_one, update_where, delete_where, select_one_sound, ==_iff, ==-refl, Bool-cases, inl, inr,
  select_one-update_where, select_one-update_where_ne,
}
use backend_quiz.Domain.{Error, Result, ok, err, Result-cases}
use backend_quiz.Domain.Card.{Env, Card}
use backend_quiz.Domain.Deck.{Deck, UpdateCardRequest}
use backend_quiz.Db.{World, calm, exec}
use backend_quiz.Db.Compose.{bind-err}
use backend_quiz.Repository.Tables.{Tables}
use backend_quiz.Repository.Cards.{
  is_card, get_card, update_card_row, delete_card_row, set_suspended, reset_fsrs, reset_row,
}
use backend_quiz.Repository.Decks.{is_deck, get_deck}
use backend_quiz.Study.Ended.{error_of}
use backend_quiz.Cards.{own_card, merge_card, update_card, delete_card, reset_card, suspend_card}
use backend_quiz.Cards.Store.{
  CardRequest, handle, failure, handle_all, find_card, find_deck, put, authorize, user_of,
  card_id_of, change, put_changed, step, replay, update, delete, reset, suspend,
}

-- The statements on rows, seen through the store.
module _ (k : ℕ) (f : Card → Card) (cs : List Card) (c : Card)
    (keep : (c : Card) → (f c).id ≡ c.id) where
  find-update_other :
      (i : ℕ)
      → (i == k) ≡ false
      → select_one (is_card i) (update_where (is_card k) f cs) ≡ select_one (is_card i) cs
  find-update_other i ne =
      select_one-update_where_ne (is_card i) (is_card k) f cs λ x e. ground (arith, keep x)

  find-update_same :
      select_one (is_card k) cs ≡ some c
      → select_one (is_card k) (update_where (is_card k) f cs) ≡ some (f c)
  find-update_same h = select_one-update_where (is_card k) f cs c (λ x. ground (arith, keep x)) h

  find-update :
      select_one (is_card k) cs ≡ some c
      → (i : ℕ)
      → select_one (is_card i) (update_where (is_card k) f cs)
        ≡ put k (some (f c)) (λ j. select_one (is_card j) cs) i
  find-update h i = elim (Bool-cases (i == k)) [
    | inl e ↦ let same : i ≡ k = (==_iff i k).0 e in rw (same, ==-refl k, find-update_same h)
    | inr e ↦ rw (e, find-update_other i e)
  ]

find-delete :
    (k : ℕ) (cs : List Card) (i : ℕ)
    → select_one (is_card i) (delete_where (is_card k) cs)
      ≡ put k none (λ j. select_one (is_card j) cs) i
find-delete k [] i = ground arith
find-delete k (d ∷ ds) i = ground (arith, find-delete k ds i)

-- own_card with no statement refused
own_card-calm :
    (u id : ℕ) (t : Tables)
    → own_card u id (calm t) ≡ (authorize (find_deck t) u (find_card t id), calm t)
unfolding own_card get_card get_deck exec
own_card-calm u id t = ground arith

authorize-found :
    (decks : ℕ → Option Deck) (u : ℕ) (o : Option Card) (c : Card)
    → authorize decks u o ≡ ok c
    → o ≡ some c
authorize-found decks u o c h = ground arith

abbrev written : Env → Card → Card → Card
written env card row = record row {
  front = card.front;
  back = card.back;
  content_type = card.content_type;
  tags = card.tags;
  updated_at = env.now;
}

-- A request that is not refused, with no statement refused.
module _ (t : Tables) (c : Card) where
  update-calm :
      (env : Env) (u id : ℕ) (req : UpdateCardRequest)
      → authorize (find_deck t) u (find_card t id) ≡ ok c
      → update_card env u id req (calm t) ≡ (
        ok (merge_card req c),
        calm (record t {
          cards =
              update_where (is_card (merge_card req c).id) (written env (merge_card req c)) t.cards;
        }),
      )
  unfolding update_card update_card_row exec
  update-calm env u id req h = rw (own_card-calm u id t, h)

  delete-calm :
      (u id : ℕ)
      → authorize (find_deck t) u (find_card t id) ≡ ok c
      → delete_card u id (calm t) ≡ delete_card_row id (calm t)
  unfolding delete_card
  delete-calm u id h = rw (own_card-calm u id t, h)

  suspend-calm :
      (env : Env) (u id : ℕ) (b : Bool)
      → authorize (find_deck t) u (find_card t id) ≡ ok c
      → suspend_card env u id b (calm t) ≡ (
        ok tt,
        calm (record t {
          cards =
              update_where
                (is_card id)
                (λ row. record row { is_suspended = b; updated_at = env.now })
                t.cards;
        }),
      )
  unfolding suspend_card set_suspended exec
  suspend-calm env u id b h = rw (own_card-calm u id t, h)

  reset-calm :
      (env : Env) (u id : ℕ)
      → authorize (find_deck t) u (find_card t id) ≡ ok c
      → reset_card env u id (calm t) ≡ (
        ok (reset_row env c),
        calm (record t { cards = update_where (is_card id) (reset_row env) t.cards }),
      )
  unfolding reset_card reset_fsrs get_card exec
  reset-calm env u id h =
      rw (own_card-calm u id t, h)
        (rw (
          find-update_same id (reset_row env) t.cards c (λ c. refl)
            (authorize-found (find_deck t) u (find_card t id) c h)))

-- A request on the rows `t` is a step of the store, and its error is that of the owner's check.
record IsStep (r : CardRequest) (t : Tables) : Type 0 where
  rows : Tables
  run : handle r (calm t) ≡ calm rows
  decks : rows.decks ≡ t.decks
  cards : find_card rows ≡ step (find_deck t) r (find_card t)
  error :
      failure r (calm t)
      ≡ error_of (authorize (find_deck t) (user_of r) (find_card t (card_id_of r)))

module _ (t : Tables) (r : CardRequest) where
  abbrev authorized : Result Card
  authorized = authorize (find_deck t) (user_of r) (find_card t (card_id_of r))

  -- a refused request
  refused-IsStep :
      (e : Error)
      → authorized ≡ err e
      → handle r (calm t) ≡ calm t
      → failure r (calm t) ≡ some e
      → IsStep r t
  refused-IsStep e h run error = record {
    rows = t;
    run = run;
    decks = refl;
    cards = sym (ap (λ x. put_changed r x (find_card t)) h);
    error = error ∙ sym (ap error_of h);
  }

  -- a request that is carried out
  done-IsStep :
      (c : Card) (rows : Tables)
      → authorized ≡ ok c
      → handle r (calm t) ≡ calm rows
      → failure r (calm t) ≡ none
      → rows.decks ≡ t.decks
      → ((i : ℕ) → find_card rows i ≡ put (card_id_of r) (change r c) (find_card t) i)
      → IsStep r t
  done-IsStep c rows h run error decks cards = record {
    rows = rows;
    run = run;
    decks = decks;
    cards = fun_ext cards ∙ sym (ap (λ x. put_changed r x (find_card t)) h);
    error = error ∙ sym (ap error_of h);
  }

own_card-refused :
    (t : Tables) (u id : ℕ) (e : Error)
    → authorize (find_deck t) u (find_card t id) ≡ err e
    → own_card u id (calm t) ≡ (err e, calm t)
own_card-refused t u id e h = own_card-calm u id t ∙ ap (λ (x : Result Card). (x, calm t)) h

IsStep-refused : (r : CardRequest) (t : Tables) (e : Error) → authorized t r ≡ err e → IsStep r t
unfolding handle failure update_card delete_card reset_card suspend_card
IsStep-refused (update env u id req) t e h =
    let p = bind-err (own_card u id) _ (calm t) (calm t) e (own_card-refused t u id e h) in
    refused-IsStep t (update env u id req) e h (ap (λ x. x.1) p) (ap (λ x. error_of x.0) p)
IsStep-refused (delete env u id) t e h =
    let p = bind-err (own_card u id) _ (calm t) (calm t) e (own_card-refused t u id e h) in
    refused-IsStep t (delete env u id) e h (ap (λ x. x.1) p) (ap (λ x. error_of x.0) p)
IsStep-refused (reset env u id) t e h =
    let p = bind-err (own_card u id) _ (calm t) (calm t) e (own_card-refused t u id e h) in
    refused-IsStep t (reset env u id) e h (ap (λ x. x.1) p) (ap (λ x. error_of x.0) p)
IsStep-refused (suspend env u id b) t e h =
    let p = bind-err (own_card u id) _ (calm t) (calm t) e (own_card-refused t u id e h) in
    refused-IsStep t (suspend env u id b) e h (ap (λ x. x.1) p) (ap (λ x. error_of x.0) p)

IsStep-done : (r : CardRequest) (t : Tables) (c : Card) → authorized t r ≡ ok c → IsStep r t
unfolding handle failure change delete_card_row exec merge_card
IsStep-done (update env u id req) t c h =
    let p = update-calm t c env u id req h in
    let found = authorize-found (find_deck t) u (find_card t id) c h in
    done-IsStep t (update env u id req) c _ h (ap (λ x. x.1) p) (ap (λ x. error_of x.0) p) refl λ i.
      subst
        (λ k.
          select_one (is_card i) (update_where (is_card k) (written env (merge_card req c)) t.cards)
          ≡ put id (some (written env (merge_card req c) c)) (find_card t) i)
        (sym ((==_iff c.id id).0 (select_one_sound (is_card id) t.cards c found)))
        (find-update id (written env (merge_card req c)) t.cards c (λ c. refl) found i)
IsStep-done (delete env u id) t c h =
    let p = delete-calm t c u id h in
    done-IsStep t (delete env u id) c _ h (ap (λ x. x.1) p) (ap (λ x. error_of x.0) p) refl
      λ i. find-delete id t.cards i
IsStep-done (reset env u id) t c h =
    let p = reset-calm t c env u id h in
    let found = authorize-found (find_deck t) u (find_card t id) c h in
    done-IsStep t (reset env u id) c _ h (ap (λ x. x.1) p) (ap (λ x. error_of x.0) p) refl
      (find-update id (reset_row env) t.cards c (λ c. refl) found)
IsStep-done (suspend env u id b) t c h =
    let p = suspend-calm t c env u id b h in
    let found = authorize-found (find_deck t) u (find_card t id) c h in
    done-IsStep t (suspend env u id b) c _ h (ap (λ x. x.1) p) (ap (λ x. error_of x.0) p) refl (
      find-update id (λ row. record row { is_suspended = b; updated_at = env.now }) t.cards c
        (λ c. refl) found)

IsStep-handle : (r : CardRequest) (t : Tables) → IsStep r t
IsStep-handle r t = elim (Result-cases (authorized t r)) [
  | inl (e, h) ↦ IsStep-refused r t e h
  | inr (c, h) ↦ IsStep-done r t c h
]

-- With no statement refused, the requests that change a stored card refine the steps of a map from
-- ids to cards: after any sequence of them the stored cards are those of the replay of the
-- sequence on the map, in which each user changes the cards of their own decks only.
pub handle_all_refines :
    (rs : List CardRequest) (t : Tables)
    → find_card (handle_all rs (calm t)).tables ≡ replay (find_deck t) rs (find_card t)
unfolding handle_all replay
handle_all_refines [] t = refl
handle_all_refines (r ∷ rs) t =
    let s = IsStep-handle r t in
    ap (λ (w : World Tables). find_card (handle_all rs w).tables) s.run
    ∙ handle_all_refines rs s.rows
    ∙ ap (λ (ds : List Deck). replay (λ i. select_one (is_deck i) ds) rs (find_card s.rows)) s.decks
    ∙ ap (replay (find_deck t) rs) s.cards

-- With no statement refused, such a request is refused exactly as the owner's check says: with
-- not_found where the card or its deck is not stored, with forbidden where the deck is another
-- user's, and otherwise not at all.
pub card_request_errors :
    (r : CardRequest) (t : Tables)
    → failure r (calm t)
      ≡ error_of (authorize (find_deck t) (user_of r) (find_card t (card_id_of r)))
card_request_errors r t = (IsStep-handle r t).error
