-- ===== src/Repository/Sessions/Laws.antt =====
-- What the statements of the sessions, the users and the review logs do to the rows.
use backend_quiz.Common.{
  ℕ, ◌≡◌, refl, sym, ap, ◌∙◌, ◌⊎◌, inl, inr, Option, none, some, select_one, update_where,
  update_where-none,
}
use backend_quiz.Domain.{Error, database, Result, ok, err}
use backend_quiz.Domain.Card.{Env}
use backend_quiz.Domain.Study.{StudySession}
use backend_quiz.Db.{World, exec, query, continue}
use backend_quiz.Db.Rules.{IsReadOnly, IsAtomic, exec-Ran, IsReadOnly-query, IsAtomic-exec}
use backend_quiz.Db.Compose.{
  IsReadOnly-pure, IsReadOnly-raise, IsReadOnly-bind, continue-tx, bind-ok, query-ok,
}
use backend_quiz.Repository.Tables.{Tables, or_not_found}
use backend_quiz.Repository.Sessions.{
  get_user, get_session, create_session, update_session, write_session, is_session, or_no_rows,
}

pub IsReadOnly-or_not_found : {T A : Type 0} (o : Option A) → IsReadOnly {T = T} (or_not_found o)
IsReadOnly-or_not_found none = IsReadOnly-raise _
IsReadOnly-or_not_found (some a) = IsReadOnly-pure a

pub IsReadOnly-get_user : (id : ℕ) → IsReadOnly (get_user id)
unfolding get_user
IsReadOnly-get_user id = IsReadOnly-bind (IsReadOnly-query _) IsReadOnly-or_not_found

pub IsReadOnly-get_session : (id : ℕ) → IsReadOnly (get_session id)
unfolding get_session
IsReadOnly-get_session id = IsReadOnly-bind (IsReadOnly-query _) IsReadOnly-or_not_found

pub IsAtomic-create_session :
    (env : Env) (user_id : ℕ) (deck_id : Option ℕ) → IsAtomic (create_session env user_id deck_id)
unfolding create_session
IsAtomic-create_session env user_id deck_id = IsAtomic-exec _

abbrev updated : StudySession → Tables → Option StudySession × Tables
updated session t =
    let rows = update_where (is_session session.id) (write_session session) t.study_sessions in
    (select_one (is_session session.id) rows, record t { study_sessions = rows })

no_rows_unchanged :
    (session : StudySession) (t : Tables) → (updated session t).0 ≡ none → (updated session t).1 ≡ t
no_rows_unchanged session t h =
    ap (λ rows. record t { study_sessions = rows })
      (update_where-none (is_session session.id) (write_session session) t.study_sessions
        (λ x. refl) h)

-- the rest of `update_session`, once the statement has run
or_no_rows_failed :
    (session : StudySession) (t : Tables) (r : Result (Option StudySession)) (w : World Tables)
    (e : Error)
    → ((r ≡ ok (updated session t).0) × (w.tables ≡ (updated session t).1))
      ⊎ ((r ≡ err database) × (w.tables ≡ t))
    → (continue r or_no_rows w).0 ≡ err e
    → (continue r or_no_rows w).1.tables ≡ t
or_no_rows_failed session t (err x) w e (inl h) g = cc
or_no_rows_failed session t (err x) w e (inr h) g = h.1
or_no_rows_failed session t (ok none) w e (inl h) g = h.1 ∙ no_rows_unchanged session t (cc)
or_no_rows_failed session t (ok none) w e (inr h) g = cc
or_no_rows_failed session t (ok (some s)) w e h g = cc

IsReadOnly-or_no_rows : (o : Option StudySession) → IsReadOnly (or_no_rows o)
IsReadOnly-or_no_rows none = IsReadOnly-raise database
IsReadOnly-or_no_rows (some s) = IsReadOnly-pure tt

pub IsAtomic-update_session : (session : StudySession) → IsAtomic (update_session session)
unfolding update_session
IsAtomic-update_session session = record {
  tx = λ w i.
      let (r, w') = exec (updated session) w in
      let still = (IsAtomic-exec (updated session)).tx w i in
      continue-tx r or_no_rows w' still (λ a. (IsReadOnly-or_no_rows a).tx w' still);
  failed = λ w e i h.
      let (r, w') = exec (updated session) w in
      or_no_rows_failed session w.tables r w' e (exec-Ran (updated session) w) h;
}

pub or_not_found-ok :
    {A : Type 0} (o : Option A) (w : World Tables) (a : A)
    → (or_not_found o w).0 ≡ ok a
    → o ≡ some a
or_not_found-ok none w a h = cc
or_not_found-ok (some b) w a h = cc

-- What is found is a row of the table.
pub get_session-ok :
    (id : ℕ) (w : World Tables) (s : StudySession)
    → (get_session id w).0 ≡ ok s
    → select_one (is_session id) w.tables.study_sessions ≡ some s
unfolding get_session
get_session-ok id w s h =
    let (row, q, f, _) =
      bind-ok (query (λ t. select_one (is_session id) t.study_sessions)) or_not_found w s h in
    sym (query-ok (λ (t : Tables). select_one (is_session id) t.study_sessions) w row q)
    ∙ or_not_found-ok row (query (λ t. select_one (is_session id) t.study_sessions) w).1 s f
