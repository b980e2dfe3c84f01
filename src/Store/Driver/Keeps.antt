-- ===== src/Store/Driver/Keeps.antt =====
-- Invariants of the tables, one rule for each way to build a method of the store. They hold
-- whatever faults the calls of the driver meet.
use test_api.Prelude.{
  Bool, true, false, if◌then◌else◌, Option, some, none, ◌≤◌, String, ◌≡◌, refl, List, ok, err,
  Result, [], ◌∷◌, arith,
}
use test_api.Domain.Errors.{Failure, Foreign}
use test_api.Store.Schema.{Tables, Counters}
use test_api.Store.Driver.{
  found, Database, Fault, Statement, Method, query, works, fails, is_lost, run, continue,
  sort_error, begin, ◌>>=◌, pure, fail,
}
use test_api.Store.Driver.Transactions.{finish, transaction}

pub record Grows (n n' : Counters) : Type 0 where
  pub users : n.users ≤ n'.users
  pub teams : n.teams ≤ n'.teams
  pub tasks : n.tasks ≤ n'.tasks
  pub task_history : n.task_history ≤ n'.task_history
  pub task_comments : n.task_comments ≤ n'.task_comments

module _ (P : Tables → Counters → Type 0) where
  -- The invariant holds at `d`, and no counter is behind those of `n`.
  pub record Holds (n : Counters) (d : Database) : Type 0 where
    pub inv : P d.tables d.next
    pub grows : Grows n d.next

  pub record Keeps {A : Type 0} (m : Method A) : Type 0 where
    pub at : (d : Database) → P d.tables d.next → Holds d.next (m d).1

  pub record KeepsStatement {A : Type 0} (stmt : Statement A) : Type 0 where
    pub at : (d : Database) → P d.tables d.next → Holds d.next (stmt d).1

module _ {P : Tables → Counters → Type 0} where
  pub Holds-refl : (d : Database) → P d.tables d.next → Holds P d.next d
  Holds-refl d p = record { inv = p; grows = omega arith }

  run-Holds :
      {A : Type 0} (stmt : Statement A)
      → ((d : Database) → P d.tables d.next → Holds P d.next (stmt d).1)
      → (d : Database) (fs : List Fault) → d.faults ≡ fs
      → P d.tables d.next
      → Holds P d.next (run stmt d).1
  unfolding run
  run-Holds stmt k d [] e p = rw (e, run) (k d p)
  run-Holds stmt k d (works ∷ rest) e p = rw (e, run) (k (record d { faults = rest }) p)
  run-Holds stmt k d (fails why ∷ rest) e p =
      rw (e, run) (Holds-refl (record d { faults = rest }) p)
  run-Holds stmt k d (is_lost why ∷ rest) e p = rw (e, run) (k (record d { faults = rest }) p)

  pub Keeps-query :
      {A : Type 0} (stmt : Statement A) (f : Foreign → String → Failure) (op : String)
      → KeepsStatement P stmt
      → Keeps P (query stmt f op)
  Keeps-query stmt f op k = record { at = λ d p. run-Holds stmt k.at d d.faults refl p }

  found-Holds :
      {A : Type 0} (o : Option A) (d : Database) → P d.tables d.next → Holds P d.next (found o d).1
  found-Holds none d p = Holds-refl d p
  found-Holds (some a) d p = Holds-refl d p

  -- A query for one row, and one for several: they only read.
  pub Keeps-found : {A : Type 0} (o : Database → Option A) → KeepsStatement P (λ d. found (o d) d)
  Keeps-found o = record { at = λ d p. found-Holds (o d) d p }

  pub Keeps-rows : {A : Type 0} (f : Database → A) → KeepsStatement P (λ d. (ok (f d), d))
  Keeps-rows f = record { at = λ d p. Holds-refl d p }

  pub Keeps-pure : {A : Type 0} (a : A) → Keeps P (pure a)
  Keeps-pure a = record { at = λ d p. Holds-refl d p }

  pub Keeps-fail : (A : Type 0) (e : Failure) → Keeps P (fail {A = A} e)
  Keeps-fail A e = record { at = λ d p. Holds-refl d p }

  pub Keeps-if :
      {A : Type 0} (b : Bool) (m m' : Method A)
      → Keeps P m
      → Keeps P m'
      → Keeps P (if b then m else m')
  Keeps-if true m m' k k' = k
  Keeps-if false m m' k k' = k'

  pub Holds-trans :
      {n : Counters} {d d' : Database} → Holds P n d → Holds P d.next d' → Holds P n d'
  Holds-trans h k = record { inv = k.inv; grows = omega (arith, h.grows, k.grows) }

  continue-Holds :
      {A B : Type 0} (r : Result Failure A) (f : A → Method B) {n : Counters} (d : Database)
      → ((a : A) → Keeps P (f a))
      → Holds P n d
      → Holds P n (continue r f d).1
  continue-Holds (ok a) f d kf h = Holds-trans h ((kf a).at d h.inv)
  continue-Holds (err e) f d kf h = h

  pub Keeps-bind :
      {A B : Type 0} (call : Method A) (after : A → Method B)
      → Keeps P call
      → ((answer : A) → Keeps P (after answer))
      → Keeps P (call >>= after)
  Keeps-bind call after k₁ k₂ = record {
    at = λ d p. continue-Holds (call d).0 after (call d).1 k₂ (k₁.at d p);
  }

-- How a method ends that need not keep the invariant: after a success `Q` holds, and in any case no
-- counter went back.
abbrev pub Ends :
    {E A : Type 0} → (A → Tables → Counters → Type 0) → Counters → Result E A × Database → Type 0
Ends Q n (ok a, d) = Q a d.tables d.next × Grows n d.next
Ends Q n (err e, d) = Grows n d.next

module _ {A : Type 0} (Q : A → Tables → Counters → Type 0) where
  Ends-Grows :
      {E : Type 0} (r : Result E A) {n : Counters} (d : Database) → Ends Q n (r, d) → Grows n d.next
  Ends-Grows (ok a) d h = h.1
  Ends-Grows (err e) d h = h

  sorted-Ends :
      (r : Result Foreign A) (f : Foreign → String → Failure) (op : String) (n : Counters)
      (d : Database)
      → Ends Q n (r, d)
      → Ends Q n (sort_error r f op, d)
  sorted-Ends (ok a) f op n d h = h
  sorted-Ends (err e) f op n d h = h

  run-Ends :
      (stmt : Statement A) (d : Database) (fs : List Fault)
      → d.faults ≡ fs
      → ((rest : List Fault) → Ends Q d.next (stmt (record d { faults = rest })))
      → Ends Q d.next (run stmt d)
  unfolding run
  run-Ends stmt d [] e k = rw (e, run) (k d.faults)
  run-Ends stmt d (works ∷ rest) e k = rw (e, run) (k rest)
  run-Ends stmt d (fails why ∷ rest) e k = rw (e, run) (omega arith)
  run-Ends stmt d (is_lost why ∷ rest) e k =
      rw (e, run) (let (r, d') = stmt (record d { faults = rest }) in Ends-Grows r d' (k rest))

  pub query-Ends :
      (stmt : Statement A) (f : Foreign → String → Failure) (op : String) (d : Database)
      → ((rest : List Fault) → Ends Q d.next (stmt (record d { faults = rest })))
      → Ends Q d.next (query stmt f op d)
  query-Ends stmt f op d k =
      let (r, d') = run stmt d in sorted-Ends r f op d.next d' (run-Ends stmt d d.faults refl k)

module _ {A B : Type 0} (Q : A → Tables → Counters → Type 0)
    (R : B → Tables → Counters → Type 0) where
  Ends-trans :
      (r : Result Failure B) (n n' : Counters) (d : Database)
      → Grows n n'
      → Ends R n' (r, d)
      → Ends R n (r, d)
  Ends-trans (ok b) n n' d g (x, y) = (x, omega arith)
  Ends-trans (err e) n n' d g y = omega arith

  continue-Ends :
      (r : Result Failure A) (f : A → Method B) (n : Counters) (d : Database)
      → ((a : A) (d' : Database) → Q a d'.tables d'.next → Ends R d'.next (f a d'))
      → Ends Q n (r, d)
      → Ends R n (continue r f d)
  continue-Ends (ok a) f n d k (q, g) = let (r, d') = f a d in Ends-trans r n d.next d' g (k a d q)
  continue-Ends (err e) f n d k h = h

  pub bind-Ends :
      (m : Method A) (f : A → Method B) (d : Database)
      → Ends Q d.next (m d)
      → ((a : A) (d' : Database) → Q a d'.tables d'.next → Ends R d'.next (f a d'))
      → Ends R d.next ((m >>= f) d)
  bind-Ends m f d h k = let (r, d') = m d in continue-Ends r f d.next d' k h

module _ {P : Tables → Counters → Type 0}
    (mono : (t : Tables) (n n' : Counters) → P t n → Grows n n' → P t n') where
  finish-Holds :
      {A : Type 0} (r : Result Failure A) {n : Counters} (d₀ d : Database) (fs : List Fault)
      → d.faults ≡ fs
      → P d₀.tables n
      → Ends (λ _. P) n (r, d)
      → Holds P n (finish d₀.tables r d).1
  finish-Holds (err x) {n} d₀ d fs e p g = record { inv = mono d₀.tables n d.next p g; grows = g }
  finish-Holds (ok a) d₀ d [] e p (q, g) = rw e (record { inv = q; grows = g })
  finish-Holds (ok a) d₀ d (works ∷ rest) e p (q, g) = rw e (record { inv = q; grows = g })
  finish-Holds (ok a) {n} d₀ d (fails why ∷ rest) e p (q, g) =
      rw e (record { inv = mono d₀.tables n d.next p g; grows = g })
  finish-Holds (ok a) d₀ d (is_lost why ∷ rest) e p (q, g) = rw e (record { inv = q; grows = g })

  -- A transaction whose body ends well where it begins.
  transaction-Holds :
      {A : Type 0} (body : Method A) (d : Database) (fs : List Fault)
      → d.faults ≡ fs
      → P d.tables d.next
      → ((rest : List Fault)
          → Ends (λ _. P) d.next (body (record d { faults = rest; in_transaction = true })))
      → Holds P d.next (transaction body d).1
  unfolding transaction begin run
  transaction-Holds body d [] e p k =
      let d' : Database = record d { in_transaction = true } in
      rw (e, transaction, begin, run)
        (finish-Holds (body d').0 d' (body d').1 (body d').1.faults refl p (k d.faults))
  transaction-Holds body d (works ∷ rest) e p k =
      let d' : Database = record d { faults = rest; in_transaction = true } in
      rw (e, transaction, begin, run)
        (finish-Holds (body d').0 d' (body d').1 (body d').1.faults refl p (k rest))
  transaction-Holds body d (fails why ∷ rest) e p k =
      rw (e, transaction, begin, run) (Holds-refl (record d { faults = rest }) p)
  transaction-Holds body d (is_lost why ∷ rest) e p k =
      rw (e, transaction, begin, run) (Holds-refl (record d { faults = rest }) p)

  pub transaction_from :
      {A : Type 0} (body : Method A) (d : Database)
      → P d.tables d.next
      → ((rest : List Fault)
          → Ends (λ _. P) d.next (body (record d { faults = rest; in_transaction = true })))
      → Holds P d.next (transaction body d).1
  transaction_from body d p k = transaction-Holds body d d.faults refl p k

  pub Keeps-transaction :
      {A : Type 0} (body : Method A)
      → ((d : Database) → P d.tables d.next → Ends (λ _. P) d.next (body d))
      → Keeps P (transaction body)
  Keeps-transaction body k = record {
    at = λ d p.
        transaction_from body d p λ rest. k (record d { faults = rest; in_transaction = true }) p;
  }

module _ {P : Tables → Counters → Type 0} {A : Type 0} where
  ends : (r : Result Failure A) (n : Counters) (d : Database) → Holds P n d → Ends (λ _. P) n (r, d)
  ends (ok a) n d h = (h.inv, h.grows)
  ends (err e) n d h = h.grows

  -- A method that keeps the invariant ends with it.
  pub Keeps-Ends :
      (m : Method A) → Keeps P m → (d : Database) → P d.tables d.next → Ends (λ _. P) d.next (m d)
  Keeps-Ends m k d p = ends (m d).0 d.next (m d).1 (k.at d p)

pub ruleset store_rules =
    (Keeps-query, Keeps-found, Keeps-rows, Keeps-pure, Keeps-fail, Keeps-if, Keeps-bind)
