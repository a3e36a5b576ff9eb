-- ===== src/Quiz/Attempts/Started.antt =====
-- StartAttempt of internal/service/quiz.go: what it records of the questions and their shuffle.
use mathlib.Core.List.{Permᴰ}
use mathlib.Core.List.Permᴰ
use backend_quiz.Common.{
  ℕ, suc, ◌+◌, ◌≡◌, refl, ap, ◌∙◌, ◌⊎◌, Bool, true, false, not, ◌&&◌, some, List, [], ◌∷◌, arith,
  length, select_one, ◌==◌, if◌then◌else◌, select_where,
}
use backend_quiz.Common.{ℤ, pos, ◌+ℤ◌, int_laws, int32}
use backend_quiz.Domain.{ok, quiz_not_published}
use backend_quiz.Domain.Card.{Env}
use backend_quiz.Domain.Quiz.{Quiz, QuizQuestion, StartAttemptResponse}
use backend_quiz.Db.{World, exec}
use backend_quiz.Db.Compose.{bind-ok, raise_if-ok}
use backend_quiz.Repository.Tables.{Tables}
use backend_quiz.Repository.Quizzes.{get_quiz, is_quiz, list_questions, order_questions, in_quiz}
use backend_quiz.Repository.Attempts.{create_attempt}
use backend_quiz.Quiz.Grading.{Runtime}
use backend_quiz.Quiz.Attempts.{strip_from, sum_points, open_attempt, start_attempt}

add_swap : (a b c : ℤ) → (a +ℤ b) +ℤ c ≡ (a +ℤ c) +ℤ b
add_swap a b c = grind int_laws

-- The total of the points does not depend on the order of the questions.
sum_points-Perm :
    {ps qs : List QuizQuestion} (total : ℤ)
    → Permᴰ ps qs
    → sum_points total ps ≡ sum_points total qs
unfolding sum_points
sum_points-Perm total Permᴰ.nil = refl
sum_points-Perm total (Permᴰ.cons {a} {b} {l₁} {l₂} e p) =
    sum_points-Perm (total +ℤ a.points) p
    ∙ ap (λ (x : QuizQuestion). sum_points (total +ℤ x.points) l₂) e
sum_points-Perm total (Permᴰ.swap {a} {b} {a'} {b'} {l} e f) =
    ap (λ x. sum_points x l) (add_swap total a.points b.points)
    ∙ ap (λ (x : QuizQuestion). sum_points ((total +ℤ x.points) +ℤ a.points) l) f
    ∙ ap (λ (x : QuizQuestion). sum_points ((total +ℤ a'.points) +ℤ x.points) l) e
sum_points-Perm total (Permᴰ.trans p q) = sum_points-Perm total p ∙ sum_points-Perm total q

length-Perm : {ps qs : List QuizQuestion} → Permᴰ ps qs → length ps ≡ length qs
length-Perm Permᴰ.nil = refl
length-Perm (Permᴰ.cons e p) = ap suc (length-Perm p)
length-Perm (Permᴰ.swap e f) = refl
length-Perm (Permᴰ.trans p q) = length-Perm p ∙ length-Perm q

length-strip_from :
    (rt : Runtime) (i : ℕ) (qs : List QuizQuestion) → length (strip_from rt i qs) ≡ length qs
unfolding strip_from
length-strip_from rt i [] = refl
length-strip_from rt i (q ∷ qs) = ap suc (length-strip_from rt (i + 1) qs)

open_attempt-ok :
    (env : Env) (rt : Runtime) (u k : ℕ) (qs : List QuizQuestion) (w : World Tables)
    (r : StartAttemptResponse)
    → (open_attempt env rt u k qs w).0 ≡ ok r
    → (r.attempt.total_points ≡ int32 (sum_points (pos 0) qs))
      × (r.attempt.total_questions ≡ int32 (pos (length qs)))
      × (r.questions ≡ strip_from rt 0 qs)
unfolding open_attempt create_attempt exec
open_attempt-ok env rt u k qs w r h = ground arith

get_quiz-ok :
    (id : ℕ) (w : World Tables) (q : Quiz)
    → (get_quiz id w).0 ≡ ok q
    → (select_one (is_quiz id) w.tables.quizzes ≡ some q) × ((get_quiz id w).1.tables ≡ w.tables)
unfolding get_quiz exec
get_quiz-ok id w q h = ground arith

list_questions-ok :
    (id : ℕ) (w : World Tables) (qs : List QuizQuestion)
    → (list_questions id w).0 ≡ ok qs
    → qs ≡ order_questions (select_where (in_quiz id) w.tables.quiz_questions)
unfolding list_questions exec
list_questions-ok id w qs h = ground arith

shuffled :
    (b : Bool) (shuffle : List QuizQuestion → List QuizQuestion) (qs : List QuizQuestion)
    → ((ps : List QuizQuestion) → Permᴰ (shuffle ps) ps)
    → Permᴰ (if b then shuffle qs else qs) qs
shuffled true shuffle qs h = h qs
shuffled false shuffle qs h = Permᴰ.refl qs

may_start : (a b : ℕ) (p : Bool) → (not (a == b) && not p) ≡ false → (a ≡ b) ⊎ (p ≡ true)
may_start a b p h = ground arith

-- An attempt that is started is at a stored quiz that is the user's or published. Whatever
-- permutation the shuffle is, its total points and its number of questions are those of the stored
-- questions of the quiz, as the columns of 32 bits hold them, and as many questions are shown.
pub start_attempt_totals :
    (env : Env) (rt : Runtime) (shuffle : List QuizQuestion → List QuizQuestion)
    (user_id quiz_id : ℕ) (w : World Tables) (r : StartAttemptResponse)
    → ((qs : List QuizQuestion) → Permᴰ (shuffle qs) qs)
    → (start_attempt env rt shuffle user_id quiz_id w).0 ≡ ok r
    → let qs = order_questions (select_where (in_quiz quiz_id) w.tables.quiz_questions) in
      (quiz : Quiz) × (select_one (is_quiz quiz_id) w.tables.quizzes ≡ some quiz)
      × ((quiz.user_id ≡ user_id) ⊎ (quiz.is_published ≡ true))
      × (r.attempt.total_points ≡ int32 (sum_points (pos 0) qs))
      × (r.attempt.total_questions ≡ int32 (pos (length qs)))
      × (length r.questions ≡ length qs)
unfolding start_attempt
start_attempt_totals env rt shuffle user_id quiz_id w r permutes h =
    let (quiz, a1, h1, _) = bind-ok (get_quiz quiz_id) _ w r h in
    let w1 = (get_quiz quiz_id w).1 in
    let (stored, t1) = get_quiz-ok quiz_id w quiz a1 in
    let (c2, h2, _) =
      raise_if-ok (not (quiz.user_id == user_id) && not quiz.is_published) quiz_not_published _ w1 r
        h1 in
    let (qs, a3, h3, _) = bind-ok (list_questions quiz_id) _ w1 r h2 in
    let w3 = (list_questions quiz_id w1).1 in
    let listed =
      list_questions-ok quiz_id w1 qs a3
      ∙ ap (λ (t : Tables). order_questions (select_where (in_quiz quiz_id) t.quiz_questions)) t1 in
    let order = if quiz.shuffle_questions then shuffle qs else qs in
    let perm = shuffled quiz.shuffle_questions shuffle qs permutes in
    let (points, number, shown) = open_attempt-ok env rt user_id quiz_id order w3 r h3 in
    (
      quiz,
      stored,
      may_start quiz.user_id user_id quiz.is_published c2,
      points
          ∙ ap int32 (sum_points-Perm (pos 0) perm)
          ∙ ap (λ x. int32 (sum_points (pos 0) x)) listed,
      number ∙ ap (λ n. int32 (pos n)) (length-Perm perm) ∙ ap (λ x. int32 (pos (length x))) listed,
      ap length shown ∙ length-strip_from rt 0 order ∙ length-Perm perm ∙ ap length listed,
    )
