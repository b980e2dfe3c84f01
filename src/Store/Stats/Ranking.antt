-- ===== src/Store/Stats/Ranking.antt =====
-- The rows of the most active assignees, as `statsQuery` and `SortFunc` order them.
use test_api.Prelude.{
  ◌⊎◌, ℕ, zero, suc, ℤ, pos, ◌≡◌, ◌≤◌, ◌≤ℤ◌, refl, ap, ◌∙◌, String, Bool, true, ◌==◌, int_eq,
  string_eq, Bool-cases, inl, inr, Option, none, some, List, [], ◌∷◌, lookup, lookup-insert_same,
  lookup-insert_other, select, take, map, any, length, All, All-imp, All-take, Descends, Permᴰ,
  All-shuffled, length-shuffled, order_by, order_by-shuffles, order_by-Descends, IsBy, IsCovered,
  IsCovered-shuffled, take-covers, length-take, All-select-map, arith, eq_iff, int_beq_iff, ltb_ℤ,
  string_le,
}
use mathlib.Core.List.Permᴰ
use test_api.Domain.Task.{Task, Time}
use test_api.Domain.Stats.{AssigneeStat}
use test_api.Store.Schema.{UserRow}
use test_api.Store.Stats.{
  StatsServer, status_counts, closed_by, stands_before, closers, closed_last_30d, one_more, stat_of,
}

-- A count, if there is anything.
abbrev pub counted : ℕ → Option ℤ
counted zero = none
counted (suc n) = some (pos (suc n))

abbrev pub has_status : String → Task → Bool
has_status s t = t.status == s

one_more-counted : (n : ℕ) → some (one_more (counted n)) ≡ counted (suc n)
one_more-counted zero = refl
one_more-counted (suc n) = refl

-- The entry of a status is the number of its tasks, and there is none for no task.
pub status_counts-lookup :
    (s : String) (ts : List Task)
    → lookup s (status_counts ts) ≡ counted (length (select (has_status s) ts))
unfolding status_counts select lookup
status_counts-lookup s [] = refl
status_counts-lookup s (t ∷ ts) = elim (Bool-cases (t.status == s)) [
  | inl same ↦
      let e : t.status ≡ s = (eq_iff t.status s).0 same in
      rw same (
        rw e (
          lookup-insert_same s _ (status_counts ts)
          ∙ ap (λ o. some (one_more o)) (status_counts-lookup s ts)
          ∙ one_more-counted _))
  | inr other ↦ rw other (
      lookup-insert_other t.status s _ (status_counts ts)
        (λ e. ground (arith, other, (eq_iff t.status s).1 e))
      ∙ status_counts-lookup s ts)
]

abbrev closed_tasks_of : AssigneeStat → ℤ
closed_tasks_of a = a.closed_tasks

abbrev same_user : AssigneeStat → AssigneeStat → Bool
same_user a b = b.user_id == a.user_id

stands_before-IsBy :
    (name_le : String → String → Bool) → IsBy (stands_before name_le) closed_tasks_of
stands_before-IsBy name_le = record {
  yes_ = λ x y h. ground (arith, h, int_beq_iff x.closed_tasks y.closed_tasks);
  no_ = λ x y h. ground (arith, h, int_beq_iff x.closed_tasks y.closed_tasks);
}

-- What the row of a user says is so: his number of tasks that were closed in the last 30 days, which
-- is not 0.
abbrev pub IsCounted : Time → List Task → AssigneeStat → Type 0
IsCounted now ts a = (a.closed_tasks ≡ pos (closed_by now ts a.user_id)) × (pos 1 ≤ℤ a.closed_tasks)

All-map :
    {A B : Type 0} (P : B → Type 0) (f : A → B) (xs : List A)
    → ((x : A) → P (f x))
    → All P (map f xs)
All-map P f [] h = tt
All-map P f (x ∷ xs) h = (h x, All-map P f xs h)

All-select_too :
    {A : Type 0} (P : A → Type 0) (p : A → Bool) (xs : List A)
    → All P xs
    → All (λ x. P x × (p x ≡ true)) (select p xs)
unfolding select
All-select_too P p [] h = tt
All-select_too P p (x ∷ xs) h = elim (Bool-cases (p x)) [
  | inl e ↦ rw e ((h.0, e), All-select_too P p xs h.1)
  | inr e ↦ rw e (All-select_too P p xs h.1)
]

closers-IsCounted :
    (now : Time) (ts : List Task) (us : List UserRow) → All (IsCounted now ts) (closers now ts us)
closers-IsCounted now ts us =
    All-imp
      (λ a.
        (a.closed_tasks ≡ pos (closed_by now ts a.user_id)) × (ltb_ℤ (pos 0) a.closed_tasks ≡ true))
      (IsCounted now ts) (closers now ts us) (λ a h. (h.0, ground arith))
      (All-select_too _ (λ a. ltb_ℤ (pos 0) a.closed_tasks) (map (stat_of now ts) us)
        (All-map _ (stat_of now ts) us (λ u. refl)))

-- A user who has closed nothing, or is among the rows, or is left out for three who closed no less.
abbrev pub IsPlaced : Time → List Task → List AssigneeStat → UserRow → Type 0
IsPlaced now ts top u =
    (closed_by now ts u.id ≡ 0)
    ⊎ (any (λ a. a.user_id == u.id) top ≡ true)
    ⊎ ((length top ≡ 3) × All (λ a. pos (closed_by now ts u.id) ≤ℤ a.closed_tasks) top)

IsPlaced-covered :
    (now : Time) (ts : List Task) (top : List AssigneeStat) (u : UserRow)
    → (ltb_ℤ (pos 0) (pos (closed_by now ts u.id)) ≡ true
        → IsCovered same_user closed_tasks_of 3 top (stat_of now ts u))
    → IsPlaced now ts top u
IsPlaced-covered now ts top u h = elim (Bool-cases (ltb_ℤ (pos 0) (pos (closed_by now ts u.id)))) [
  | inl some_ ↦ inr (h some_)
  | inr none_ ↦ inl (ground arith)
]

-- The rows of the most active: counted, from the highest number down, at most three, and with a
-- place for every user.
pub record IsTop (now : Time) (ts : List Task) (us : List UserRow) (top : List AssigneeStat)
    : Type 0 where
  pub counts : All (IsCounted now ts) top
  pub highest_first : Descends (λ (a : AssigneeStat). a.closed_tasks) top
  pub bounded : length top ≤ 3
  pub complete : All (IsPlaced now ts top) us

module _ (server : StatsServer) (now : Time) (ts : List Task) (us : List UserRow) where
  abbrev ranked : List AssigneeStat
  ranked = order_by (stands_before server.name_le) (closers now ts us)

  -- The rows of the query in any order, sorted again.
  pub sort_stats-IsTop :
      (read : List AssigneeStat)
      → Permᴰ (closed_last_30d server now ts us) read
      → IsTop now ts us (order_by (stands_before string_le) read)
  unfolding closed_last_30d
  sort_stats-IsTop read shuffled =
      let le = stands_before server.name_le in
      let order = order_by-shuffles le (closers now ts us) in
      let same : Permᴰ (take 3 ranked) (order_by (stands_before string_le) read) =
        Permᴰ.trans shuffled (order_by-shuffles (stands_before string_le) read) in
      let falls =
        order_by-Descends le closed_tasks_of (stands_before-IsBy server.name_le)
          (closers now ts us) in
      record {
        counts =
            All-shuffled _ same
              (All-take _ 3 ranked (All-shuffled _ order (closers-IsCounted now ts us)));
        highest_first =
            order_by-Descends (stands_before string_le) closed_tasks_of
              (stands_before-IsBy string_le) read;
        bounded = omega (arith, length-shuffled same, length-take 3 ranked);
        complete =
            All-imp _ (IsPlaced now ts (order_by (stands_before string_le) read)) us
              (IsPlaced-covered now ts (order_by (stands_before string_le) read))
              (All-select-map _ _ (stat_of now ts) us (
                All-imp _ _ (closers now ts us)
                  (λ a. IsCovered-shuffled same_user closed_tasks_of 3 a same)
                  (All-shuffled _ (Permᴰ.symm order) (
                    take-covers same_user closed_tasks_of
                      (λ a. (int_beq_iff a.user_id a.user_id).1 refl) 3 ranked falls))));
      }
