-- ===== src/Repository/Cards/Due.antt =====
-- What GetDueCards of internal/repository/card.go gives to a study session.
use backend_quiz.Common.{
  ℕ, zero, suc, ◌+◌, ◌≤◌, ◌≡◌, sym, Bool, true, Bool-cases, false, not, ◌&&◌, ◌||◌, leb, ◌==◌, ◌⊎◌,
  inl, inr, List, [], ◌∷◌, arith, length, take, select_where, count_where,
}
use backend_quiz.Common.{ℤ, pos, negsuc, ◌+ℤ◌, ◌≤ℤ◌, int32, leb_ℤ, eq_ℤ, eq_of_eq_ℤ}
use mathlib.Core.Path.{subst}
use backend_quiz.Domain.{ok}
use backend_quiz.Domain.Card.{Card}
use backend_quiz.Db.{World, query}
use backend_quiz.Db.Compose.{bind-ok, map-ok, query-ok}
use backend_quiz.Repository.Tables.{Tables}
use backend_quiz.Repository.Cards.{
  get_due_cards, due_now, order_due, insert_due, before, is_new, is_learning, apply_new_limit,
  take_limit,
}

-- every card of the list passes the test
abbrev pub All : (Card → Bool) → List Card → Type 0
All p [] = Unit
All p (c ∷ cs) = (p c ≡ true) × All p cs

All-select_where : (p : Card → Bool) (cs : List Card) → All p (select_where p cs)
All-select_where p [] = tt
All-select_where p (c ∷ cs) = elim (Bool-cases (p c)) [
  | inl e ↦ rw e (e, All-select_where p cs)
  | inr e ↦ rw e (All-select_where p cs)
]

All-insert_due :
    (p : Card → Bool) (c : Card) (cs : List Card) → p c ≡ true → All p cs → All p (insert_due c cs)
unfolding insert_due
All-insert_due p c [] e h = (e, tt)
All-insert_due p c (d ∷ ds) e h = elim (Bool-cases (before c d)) [
  | inl b ↦ rw b (e, h)
  | inr b ↦ rw b (h.0, All-insert_due p c ds e h.1)
]

All-order_due : (p : Card → Bool) (cs : List Card) → All p cs → All p (order_due cs)
unfolding order_due
All-order_due p [] h = tt
All-order_due p (c ∷ cs) h = All-insert_due p c (order_due cs) h.0 (All-order_due p cs h.1)

All-take : (p : Card → Bool) (n : ℕ) (cs : List Card) → All p cs → All p (take n cs)
All-take p zero cs h = tt
All-take p (suc n) [] h = tt
All-take p (suc n) (c ∷ cs) h = (h.0, All-take p n cs h.1)

length-take-le : (n : ℕ) (cs : List Card) → length (take n cs) ≤ n
length-take-le zero cs = omega arith
length-take-le (suc n) [] = omega arith
length-take-le (suc n) (c ∷ cs) = omega (arith, length-take-le n cs)

module _ (p : Card → Bool) (limit : ℤ) where
  All-apply_new_limit : (k : ℕ) (cs : List Card) → All p cs → All p (apply_new_limit limit k cs)
  unfolding apply_new_limit
  All-apply_new_limit k [] h = tt
  All-apply_new_limit k (c ∷ cs) h =
      let keep = All-apply_new_limit (k + 1) cs h.1 in
      let skip = All-apply_new_limit k cs h.1 in
      elim (Bool-cases (is_new c)) [
        | inl e ↦ elim (Bool-cases (leb_ℤ limit (pos k))) [
          | inl f ↦ rw (e, f) skip
          | inr f ↦ rw (e, f) (h.0, keep)
        ]
        | inr e ↦ rw e (h.0, skip)
      ]

length-apply_new_limit :
    (limit : ℤ) (k : ℕ) (cs : List Card) → length (apply_new_limit limit k cs) ≤ length cs
unfolding apply_new_limit
length-apply_new_limit limit k [] = omega arith
length-apply_new_limit limit k (c ∷ cs) =
    ground (arith, length-apply_new_limit limit k cs, length-apply_new_limit limit (k + 1) cs)

-- the counter of the loop stays within the limit
count-apply_new_limit :
    (n k : ℕ) (cs : List Card) → k ≤ n → count_where is_new (apply_new_limit (pos n) k cs) + k ≤ n
unfolding apply_new_limit
count-apply_new_limit n k [] h = omega arith
count-apply_new_limit n k (c ∷ cs) h =
    ground (arith, count-apply_new_limit n k cs h, count-apply_new_limit n (k + 1) cs)

-- the total that is asked of the server
take_limit-ok :
    (p : Card → Bool) (limit : ℤ) (rows out : List Card) (w : World Tables)
    → All p rows
    → (take_limit limit rows w).0 ≡ ok out
    → All p out × (pos (length out) ≤ℤ limit)
unfolding take_limit
take_limit-ok p (pos n) rows out w h e =
    let same : take n rows ≡ out = cc in
    subst (λ o. All p o × (length o + 0 ≤ n + 0)) same
      (All-take p n rows h, omega (arith, length-take-le n rows))
take_limit-ok p (negsuc n) rows out w h e = cc

-- the card of a deck that a session may show: not suspended, and new, or learning, in review or
-- relearning with a due time that has come
abbrev pub IsDue : ℕ → ℕ → Card → Type 0
IsDue deck_id now c =
    (c.deck_id ≡ deck_id)
    × (c.is_suspended ≡ false)
    × ((c.state ≡ pos 0)
        ⊎ (((c.state ≡ pos 1) ⊎ (c.state ≡ pos 2) ⊎ (c.state ≡ pos 3)) × (c.due ≤ now)))

abbrev pub AllDue : ℕ → ℕ → List Card → Type 0
AllDue deck_id now [] = Unit
AllDue deck_id now (c ∷ cs) = IsDue deck_id now c × AllDue deck_id now cs

abbrev pub of_state_zero : Card → Bool
of_state_zero c = eq_ℤ c.state (pos 0)

due_cases :
    (deck shut fresh learning due review : Bool)
    → (deck && not shut && (fresh || (learning && due) || (review && due))) ≡ true
    → (deck ≡ true)
      × (shut ≡ false)
      × ((fresh ≡ true) ⊎ (((learning ≡ true) ⊎ (review ≡ true)) × (due ≡ true)))
due_cases deck shut fresh learning due review h = ground (arith, h)

learning_cases : (c : Card) → is_learning c ≡ true → (c.state ≡ pos 1) ⊎ (c.state ≡ pos 3)
learning_cases c h = elim (Bool-cases (eq_ℤ c.state (pos 1))) [
  | inl e ↦ inl (eq_of_eq_ℤ c.state (pos 1) e)
  | inr e ↦ inr (eq_of_eq_ℤ c.state (pos 3) (ground (arith, h, e)))
]

IsDue-of :
    (deck_id now : ℕ) (c : Card)
    → c.deck_id ≡ deck_id
    → c.is_suspended ≡ false
    → c.due ≤ now
    → (is_learning c ≡ true) ⊎ (eq_ℤ c.state (pos 2) ≡ true)
    → IsDue deck_id now c
IsDue-of deck_id now c d s u (inr r) = (d, s, inr (inr (inl (eq_of_eq_ℤ c.state (pos 2) r)), u))
IsDue-of deck_id now c d s u (inl l) = elim (learning_cases c l) [
  | inl e ↦ (d, s, inr (inl e, u))
  | inr e ↦ (d, s, inr (inr (inr e), u))
]

due_now-IsDue : (deck_id now : ℕ) (c : Card) → due_now deck_id now c ≡ true → IsDue deck_id now c
unfolding due_now
due_now-IsDue deck_id now c h =
    let (deck, open_card, rest) =
      due_cases (c.deck_id == deck_id) c.is_suspended (is_new c) (is_learning c) (leb c.due now)
        (eq_ℤ c.state (pos 2)) h in
    elim rest [
      | inl n ↦ (ground (arith, deck), open_card, inl (eq_of_eq_ℤ c.state (pos 0) n))
      | inr k ↦ IsDue-of deck_id now c (ground (arith, deck)) open_card (ground (arith, k.1)) k.0
    ]

AllDue-All :
    (deck_id now : ℕ) (cs : List Card) → All (due_now deck_id now) cs → AllDue deck_id now cs
AllDue-All deck_id now [] h = tt
AllDue-All deck_id now (c ∷ cs) h = (due_now-IsDue deck_id now c h.0, AllDue-All deck_id now cs h.1)

-- Every card that GetDueCards returns is of the deck, not suspended, and new, or in another of the
-- four states with a due time that is not after `now`; at most `new_limit` of them are new, and there are at most int32(new_limit + review_limit).
pub get_due_cards_bounds :
    (deck_id now new_limit : ℕ) (review_limit : ℤ) (w : World Tables) (cards : List Card)
    → (get_due_cards deck_id now (pos new_limit) review_limit w).0 ≡ ok cards
    → AllDue deck_id now cards
      × (count_where of_state_zero cards ≤ new_limit)
      × (pos (length cards) ≤ℤ int32 (pos new_limit +ℤ review_limit))
unfolding get_due_cards
get_due_cards_bounds deck_id now new_limit review_limit w cards h =
    let due = due_now deck_id now in
    let select = λ (t : Tables). order_due (select_where due t.cards) in
    let (rows, h1, h2, _) = bind-ok (query select) _ w cards h in
    let found : rows ≡ select w.tables = query-ok select w rows h1 in
    let w1 = (query select w).1 in
    let (limited, h3, e, _) =
      map-ok (take_limit (int32 (pos new_limit +ℤ review_limit)) rows)
        (apply_new_limit (pos new_limit) 0) w1 cards h2 in
    let all_due : All due rows =
      subst (All due) (sym found) (
        All-order_due due (select_where due w.tables.cards)
          (All-select_where due w.tables.cards)) in
    let (all, total) =
      take_limit-ok due (int32 (pos new_limit +ℤ review_limit)) rows limited w1 all_due h3 in
    subst
      (λ out.
        AllDue deck_id now out
        × (count_where of_state_zero out ≤ new_limit)
        × (pos (length out) ≤ℤ int32 (pos new_limit +ℤ review_limit)))
      (sym e)
      (
        AllDue-All deck_id now _ (All-apply_new_limit due (pos new_limit) 0 limited all),
        omega (arith, count-apply_new_limit new_limit 0 limited (omega arith)),
        omega (arith, length-apply_new_limit (pos new_limit) 0 limited, total),
      )
