-- ===== src/Db/Compose.antt =====
-- Rules for sequences: the calls of a service method, with the early return on an error.
use mathlib.Core.Path.{subst}
use backend_quiz.Common.{Bool, true, false, ◌≡◌, ◌≢◌, refl, sym, ap, ◌∙◌, inl, inr, if◌then◌else◌}
use backend_quiz.Domain.{Error, Result, ok, err}
use backend_quiz.Db.{
  idle, World, M, pure, raise, continue, ◌>>=◌, ◌>>◌, raise_if, ignore, lift, exec, query,
}
use backend_quiz.Db.Rules.{exec-Ran, IsReadOnly, IsAtomic, Keeps, Ensures}

module _ {T A : Type 0} where
  pub IsReadOnly-pure : (a : A) → IsReadOnly {T = T} (pure a)
  IsReadOnly-pure a = record { tables = λ w. refl; tx = λ w i. i }

  pub IsReadOnly-raise : (e : Error) → IsReadOnly {T = T} {A = A} (raise e)
  IsReadOnly-raise e = record { tables = λ w. refl; tx = λ w i. i }

  pub IsReadOnly-if :
      (b : Bool) {m n : M T A} → IsReadOnly m → IsReadOnly n → IsReadOnly (if b then m else n)
  IsReadOnly-if true p q = p
  IsReadOnly-if false p q = q

  pub IsReadOnly-IsAtomic : {m : M T A} → IsReadOnly m → IsAtomic m
  IsReadOnly-IsAtomic r = record { tx = r.tx; failed = λ w e i h. r.tables w }

  pub IsAtomic-if :
      (b : Bool) {m n : M T A} → IsAtomic m → IsAtomic n → IsAtomic (if b then m else n)
  IsAtomic-if true p q = p
  IsAtomic-if false p q = q

  pub IsReadOnly-Keeps : {P : T → Type 0} {m : M T A} → IsReadOnly m → Keeps P m
  IsReadOnly-Keeps {P} r = record { at = λ w p. subst P (sym (r.tables w)) p }

  pub Keeps-if :
      {P : T → Type 0} (b : Bool) {m n : M T A}
      → Keeps P m
      → Keeps P n
      → Keeps P (if b then m else n)
  Keeps-if true p q = p
  Keeps-if false p q = q

  pub Keeps-ignore : {P : T → Type 0} {m : M T A} → Keeps P m → Keeps P (ignore m)
  Keeps-ignore k = record { at = λ w p. k.at w p }

module _ {T : Type 0} where
  pub IsReadOnly-raise_if : (b : Bool) (e : Error) → IsReadOnly {T = T} (raise_if b e)
  IsReadOnly-raise_if true e = record { tables = λ w. refl; tx = λ w i. i }
  IsReadOnly-raise_if false e = record { tables = λ w. refl; tx = λ w i. i }

module _ {T A B : Type 0} where
  continue-tables :
      (r : Result A) (f : A → M T B) (w : World T)
      → ((a : A) → (f a w).1.tables ≡ w.tables)
      → (continue r f w).1.tables ≡ w.tables
  continue-tables (ok a) f w h = h a
  continue-tables (err e) f w h = refl

  pub continue-tx :
      (r : Result A) (f : A → M T B) (w : World T)
      → w.tx ≡ idle
      → ((a : A) → (f a w).1.tx ≡ idle)
      → (continue r f w).1.tx ≡ idle
  continue-tx (ok a) f w i h = h a
  continue-tx (err e) f w i h = i

  pub IsReadOnly-bind :
      {m : M T A} {f : A → M T B}
      → IsReadOnly m
      → ((a : A) → IsReadOnly (f a))
      → IsReadOnly (m >>= f)
  IsReadOnly-bind {m} {f} p q = record {
    tables = λ w. let (r, w') = m w in continue-tables r f w' (λ a. (q a).tables w') ∙ p.tables w;
    tx = λ w i. let (r, w') = m w in continue-tx r f w' (p.tx w i) (λ a. (q a).tx w' (p.tx w i));
  }

  continue-failed :
      (r : Result A) (f : A → M T B) (w : World T) (e : Error)
      → ((a : A) → (f a w).0 ≡ err e → (f a w).1.tables ≡ w.tables)
      → (continue r f w).0 ≡ err e
      → (continue r f w).1.tables ≡ w.tables
  continue-failed (ok a) f w e k h = k a h
  continue-failed (err e') f w e k h = refl

  -- reads, and then one statement or one transaction
  pub IsAtomic-bind :
      {m : M T A} {f : A → M T B} → IsReadOnly m → ((a : A) → IsAtomic (f a)) → IsAtomic (m >>= f)
  IsAtomic-bind {m} {f} p q = record {
    tx = λ w i. let (r, w') = m w in continue-tx r f w' (p.tx w i) (λ a. (q a).tx w' (p.tx w i));
    failed = λ w e i h.
        let (r, w') = m w in
        continue-failed r f w' e (λ a. (q a).failed w' e (p.tx w i)) h ∙ p.tables w;
  }

  continue-pure_failed :
      (r : Result A) (g : A → B) (w : World T) (t : T) (e : Error)
      → ((e' : Error) → r ≡ err e' → w.tables ≡ t)
      → (continue r (λ a. pure (g a)) w).0 ≡ err e
      → (continue r (λ a. pure (g a)) w).1.tables ≡ t
  continue-pure_failed (ok a) g w t e k h = cc
  continue-pure_failed (err e') g w t e k h = k e' refl

  -- one statement or one transaction, and then only the result
  pub IsAtomic-map : {m : M T A} (g : A → B) → IsAtomic m → IsAtomic (m >>= λ a. pure (g a))
  IsAtomic-map {m} g p = record {
    tx = λ w i. let (r, w') = m w in continue-tx r (λ a. pure (g a)) w' (p.tx w i) (λ a. p.tx w i);
    failed = λ w e i h.
        let (r, w') = m w in continue-pure_failed r g w' w.tables e (λ e' h'. p.failed w e' i h') h;
  }

  continue-Keeps :
      {P : T → Type 0} (r : Result A) (f : A → M T B) (w : World T)
      → P w.tables
      → ((a : A) → Keeps P (f a))
      → P (continue r f w).1.tables
  continue-Keeps (ok a) f w p k = (k a).at w p
  continue-Keeps (err e) f w p k = p

  pub Keeps-bind :
      {P : T → Type 0} {m : M T A} {f : A → M T B}
      → Keeps P m
      → ((a : A) → Keeps P (f a))
      → Keeps P (m >>= f)
  Keeps-bind {P} {m} {f} k l = record {
    at = λ w p. let (r, w') = m w in continue-Keeps {P = P} r f w' (k.at w p) l;
  }

  continue-given :
      {P : T → Type 0} (R : A → Type 0) (r : Result A) (f : A → M T B) (w : World T)
      → P w.tables
      → ((a : A) → r ≡ ok a → R a)
      → ((a : A) → R a → Keeps P (f a))
      → P (continue r f w).1.tables
  continue-given R (ok a) f w p g l = (l a (g a refl)).at w p
  continue-given R (err e) f w p g l = p

  -- where what a first call returns says what the later ones need
  pub Keeps-bind_given :
      {P : T → Type 0} {m : M T A} {f : A → M T B} (R : A → Type 0)
      → Keeps P m
      → ((w : World T) (a : A) → P w.tables → (m w).0 ≡ ok a → R a)
      → ((a : A) → R a → Keeps P (f a))
      → Keeps P (m >>= f)
  Keeps-bind_given {P} {m} {f} R k g l = record {
    at = λ w p. let (r, w') = m w in continue-given {P = P} R r f w' (k.at w p) (λ a. g w a p) l;
  }

  continue-Ensures :
      {R : A → T → Type 0} {Q : B → T → Type 0} (r : Result A) (f : A → M T B) (w : World T) (b : B)
      → ((a : A) → r ≡ ok a → R a w.tables)
      → ((a : A) → Ensures (R a) (f a) Q)
      → (continue r f w).0 ≡ ok b
      → Q b (continue r f w).1.tables
  continue-Ensures (ok a) f w b k l h = (l a).at w b (k a refl) h
  continue-Ensures (err e) f w b k l h = cc

  pub Ensures-bind :
      {P : T → Type 0} {R : A → T → Type 0} {Q : B → T → Type 0} {m : M T A} {f : A → M T B}
      → Ensures P m R
      → ((a : A) → Ensures (R a) (f a) Q)
      → Ensures P (m >>= f) Q
  Ensures-bind {R} {Q} {m} {f} k l = record {
    at = λ w b p h.
        let (r, w') = m w in continue-Ensures {R = R} {Q = Q} r f w' b (λ a e. k.at w a p e) l h;
  }

  continue-ok :
      (r : Result A) (f : A → M T B) (w : World T) (b : B)
      → (continue r f w).0 ≡ ok b
      → (a : A) × (r ≡ ok a) × ((f a w).0 ≡ ok b) × (continue r f w ≡ f a w)
  continue-ok (ok a) f w b h = (a, refl, h, refl)
  continue-ok (err e) f w b h = cc

  -- A sequence whose first part is refused ends there.
  pub bind-err :
      (m : M T A) (f : A → M T B) (w w' : World T) (e : Error)
      → m w ≡ (err e, w')
      → (m >>= f) w ≡ (err e, w')
  bind-err m f w w' e h = ap (λ (x : Result A × World T). continue x.0 f x.1) h

  -- A sequence that ends without error has run both of its parts.
  pub bind-ok :
      (m : M T A) (f : A → M T B) (w : World T) (b : B)
      → ((m >>= f) w).0 ≡ ok b
      → (a : A) × ((m w).0 ≡ ok a) × ((f a (m w).1).0 ≡ ok b) × ((m >>= f) w ≡ f a (m w).1)
  bind-ok m f w b h = let (r, w') = m w in continue-ok r f w' b h

module _ {T A : Type 0} where
  pub query-ok : (f : T → A) (w : World T) (a : A) → (query f w).0 ≡ ok a → a ≡ f w.tables
  query-ok f w a h = elim (exec-Ran (λ t. (f t, t)) w) [ inl g ↦ cc | inr g ↦ cc ]

  pub exec-ok :
      (op : T → A × T) (w : World T) (a : A)
      → (exec op w).0 ≡ ok a
      → (a ≡ (op w.tables).0) × ((exec op w).1.tables ≡ (op w.tables).1)
  exec-ok op w a h = elim (exec-Ran op w) [ inl g ↦ (cc, g.1) | inr g ↦ cc ]

module _ {T B : Type 0} where
  pub raise_if-ok :
      (c : Bool) (e : Error) (m : M T B) (w : World T) (b : B)
      → ((raise_if c e >> m) w).0 ≡ ok b
      → (c ≡ false) × ((m w).0 ≡ ok b) × ((raise_if c e >> m) w ≡ m w)
  raise_if-ok true e m w b h = cc
  raise_if-ok false e m w b h = (refl, h, refl)

module _ {T A B : Type 0} where
  -- a check that reads no row, as the first call of a sequence
  pub lift-ok :
      (r : Result A) (f : A → M T B) (w : World T) (b : B)
      → ((lift r >>= f) w).0 ≡ ok b
      → (a : A) × (r ≡ ok a) × ((f a w).0 ≡ ok b) × ((lift r >>= f) w ≡ f a w)
  lift-ok r f w b h = continue-ok r f w b h

  -- a call of which only the result is used afterwards
  pub map-ok :
      (m : M T A) (g : A → B) (w : World T) (b : B)
      → ((m >>= λ a. pure (g a)) w).0 ≡ ok b
      → (a : A) × ((m w).0 ≡ ok a)
        × (b ≡ g a)
        × (((m >>= λ a. pure (g a)) w).1.tables ≡ (m w).1.tables)
  map-ok m g w b h =
      let (a, e, e', p) = bind-ok m (λ a. pure (g a)) w b h in
      (a, e, cc, ap (λ (r : Result B × World T). r.1.tables) p)

module _ {T A : Type 0} where
  -- a condition under which a call fails does not hold where the result is without error
  pub if-ok :
      (c : Bool) (m n : M T A) (w : World T) (a : A)
      → ((if c then m else n) w).0 ≡ ok a
      → ((m w).0 ≢ ok a)
      → (c ≡ false) × ((n w).0 ≡ ok a) × ((if c then m else n) w ≡ n w)
  if-ok true m n w a h fails = absurd (fails h)
  if-ok false m n w a h fails = (refl, h, refl)

module _ {T A B : Type 0} where
  continue-at :
      (G : T → Type 0) (r : Result A) (f : A → M T B) (w : World T)
      → G w.tables
      → ((a : A) → r ≡ ok a → G (f a w).1.tables)
      → G (continue r f w).1.tables
  continue-at G (ok a) f w g h = h a refl
  continue-at G (err e) f w g h = g

  -- the rows that a sequence leaves, from one world
  pub bind-at :
      (G : T → Type 0) (m : M T A) (f : A → M T B) (w : World T)
      → G (m w).1.tables
      → ((a : A) → (m w).0 ≡ ok a → G (f a (m w).1).1.tables)
      → G ((m >>= f) w).1.tables
  bind-at G m f w g h = let (r, w') = m w in continue-at G r f w' g h
