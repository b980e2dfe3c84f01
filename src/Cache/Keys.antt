-- ===== src/Cache/Keys.antt =====
-- `listKey` of internal/cache/task.go, taken apart.
use Prim.Native.Char.{Char, code}
use Prim.Native.String.{String, ◌∷◌, ◌++◌ as ◌<>◌}
use package.text.Mathlib.TextLemmas.{append_cancel_left}
use test_api.Prelude.{
  ℕ, ℤ, pos, pos_part, ◌≡◌, ◌⊎◌, inl, inr, refl, sym, ap, ◌∙◌, true, false, Option, none, some,
  arith, format_int_inj, format_int-filled, has_code, has_code-format_int, cut_first,
  cut_first-append, eq_iff,
}
use test_api.Domain.Task.{TaskFilter, Status, valid}
use test_api.Cache.{list_key, status_part, assignee_part}

-- A filter that the service lists by: its status is one of the four, if it names one.
pub data IsListed (f : TaskFilter) : Type 0 where
  any_status : f.status ≡ none → IsListed f
  one_status : (s : Status) → f.status ≡ some s → valid s ≡ true → IsListed f

cut_inj :
    (k : ℕ) (s s' t t' : String)
    → ◌≡◌ {A = Option (String × String)} (some (s, t)) (some (s', t'))
    → (s ≡ s') × (t ≡ t')
cut_inj k s s' t t' h = (cc, cc)

-- Two texts with the same separator at their first place.
same_cut :
    (k : ℕ) (c : Char) (p s s' t t' : String)
    → code c ≡ k
    → has_code k s ≡ false
    → has_code k s' ≡ false
    → s <> ((c ∷ p) <> t) ≡ s' <> ((c ∷ p) <> t')
    → (s ≡ s') × (t ≡ t')
same_cut k c p s s' t t' at h h' e =
    let both =
      sym (cut_first-append k c s p t at h)
      ∙ ap (cut_first k) e
      ∙ cut_first-append k c s' p t' at h' in
    let (first, rest) = cut_inj k s s' (p <> t) (p <> t') both in
    (first, append_cancel_left p t t' rest)

valid-status :
    (s : String)
    → valid s ≡ true
    → (s ≡ "todo") ⊎ (s ≡ "in_progress") ⊎ (s ≡ "done") ⊎ (s ≡ "cancelled")
unfolding valid
valid-status s h =
    ground (arith, eq_iff s "todo", eq_iff s "in_progress", eq_iff s "done", eq_iff s "cancelled")

-- A status holds no semicolon, and is not empty.
record IsName (s : String) : Type 0 where
  whole : has_code 59 s ≡ false
  filled : s ≡ "" → ⊥

valid-IsName : (s : String) → valid s ≡ true → IsName s
unfolding has_code
valid-IsName s h = elim (valid-status s h) [
  | inl e ↦ rw e (record { whole = refl; filled = λ k. cc })
  | inr (inl e) ↦ rw e (record { whole = refl; filled = λ k. cc })
  | inr (inr (inl e)) ↦ rw e (record { whole = refl; filled = λ k. cc })
  | inr (inr (inr e)) ↦ rw e (record { whole = refl; filled = λ k. cc })
]

-- The texts in a key's places.
abbrev key : String → String → String → String → String → String → String
key team gen status assignee limit offset =
    "tasks:"
    <> (team
        <> (":"
            <> (gen
                <> (":"
                    <> ("status="
                        <> (status
                            <> (";assignee="
                                <> (assignee
                                    <> (";limit=" <> (limit <> (";offset=" <> offset)))))))))))

abbrev IsClear : ℕ → String → Type 0
IsClear k s = has_code k s ≡ false

key_inj :
    (t t' g g' s s' a a' l l' o o' : String)
    → IsClear 58 t
    → IsClear 58 t'
    → IsClear 58 g
    → IsClear 58 g'
    → IsClear 59 s
    → IsClear 59 s'
    → IsClear 59 a
    → IsClear 59 a'
    → IsClear 59 l
    → IsClear 59 l'
    → key t g s a l o ≡ key t' g' s' a' l' o'
    → (t ≡ t') × (g ≡ g') × (s ≡ s') × (a ≡ a') × (l ≡ l') × (o ≡ o')
key_inj t t' g g' s s' a a' l l' o o' ht ht' hg hg' hs hs' ha ha' hl hl' e =
    let (et, e₁) = same_cut 58 ":" "" t t' _ _ refl ht ht' (append_cancel_left "tasks:" _ _ e) in
    let (eg, e₂) = same_cut 58 ":" "" g g' _ _ refl hg hg' e₁ in
    let (es, e₃) =
      same_cut 59 ";" "assignee=" s s' _ _ refl hs hs' (append_cancel_left "status=" _ _ e₂) in
    let (ea, e₄) = same_cut 59 ";" "limit=" a a' _ _ refl ha ha' e₃ in
    let (el, e₅) = same_cut 59 ";" "offset=" l l' _ _ refl hl hl' e₄ in (et, eg, es, ea, el, e₅)

-- A place that may be empty.
status_part-IsClear : (f : TaskFilter) → IsListed f → IsClear 59 (status_part f.status)
unfolding has_code
status_part-IsClear f (any_status e) = rw e refl
status_part-IsClear f (one_status s e h) = rw e (valid-IsName s h).whole

assignee_part-IsClear : (a : Option ℤ) → IsClear 59 (assignee_part a)
unfolding has_code
assignee_part-IsClear none = refl
assignee_part-IsClear (some a) = has_code-format_int 59 a (omega arith)

assignee_part_inj : (a b : Option ℤ) → assignee_part a ≡ assignee_part b → a ≡ b
assignee_part_inj none none e = refl
assignee_part_inj none (some b) e = absurd (format_int-filled b (sym e))
assignee_part_inj (some a) none e = absurd (format_int-filled a e)
assignee_part_inj (some a) (some b) e = ap some (format_int_inj a b e)

status_part_inj :
    (f g : TaskFilter)
    → IsListed f
    → IsListed g
    → status_part f.status ≡ status_part g.status
    → f.status ≡ g.status
status_part_inj f g (any_status e) (any_status e') h = e ∙ sym e'
status_part_inj f g (any_status e) (one_status s e' k) h =
    absurd ((valid-IsName s k).filled (sym (ap status_part e') ∙ sym h ∙ ap status_part e))
status_part_inj f g (one_status s e k) (any_status e') h =
    absurd ((valid-IsName s k).filled (sym (ap status_part e) ∙ h ∙ ap status_part e'))
status_part_inj f g (one_status s e k) (one_status s' e' k') h =
    e ∙ ap some (sym (ap status_part e) ∙ h ∙ ap status_part e') ∙ sym e'

-- Of filters that the service lists by: two that have the same key, each in a generation, are the
-- same, and so are the generations.
pub list_key_inj :
    (f g : TaskFilter) (m n : ℕ)
    → IsListed f
    → IsListed g
    → list_key f m ≡ list_key g n
    → (f ≡ g) × (m ≡ n)
unfolding list_key
list_key_inj f g m n hf hg e =
    let (team, gen, status, assignee, limit, offset) =
      key_inj _ _ _ _ _ _ _ _ _ _ _ _ (has_code-format_int 58 f.team_id (omega arith))
        (has_code-format_int 58 g.team_id (omega arith))
        (has_code-format_int 58 (pos m) (omega arith))
        (has_code-format_int 58 (pos n) (omega arith)) (status_part-IsClear f hf)
        (status_part-IsClear g hg) (assignee_part-IsClear f.assignee_id)
        (assignee_part-IsClear g.assignee_id) (has_code-format_int 59 f.limit (omega arith))
        (has_code-format_int 59 g.limit (omega arith)) e in
    let generations : pos m ≡ pos n = format_int_inj (pos m) (pos n) gen in
    (
      λ i. record {
        team_id = format_int_inj f.team_id g.team_id team i;
        status = status_part_inj f g hf hg status i;
        assignee_id = assignee_part_inj f.assignee_id g.assignee_id assignee i;
        limit = format_int_inj f.limit g.limit limit i;
        offset = format_int_inj f.offset g.offset offset i;
      },
      omega (arith, ap pos_part generations),
    )
