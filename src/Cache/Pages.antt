-- ===== src/Cache/Pages.antt =====
-- What the cache of internal/cache/task.go gives back.
use Prim.Native.Char.{code}
use Prim.Native.Nat.{◌/◌, ◌%◌}
use Prim.Native.String.{String, [] as nil, ◌∷◌, ◌++◌ as ◌<>◌}
use package.text.Mathlib.TextLemmas.{nil-append, cons-append, append_assoc, append_cancel_left}
use test_api.Prelude.{
  subst, ℕ, zero, suc, ℤ, pos, negsuc, ◌≡◌, ◌≢◌, refl, sym, ◌∙◌, Bool, true, false, ◌==◌, nat_eq,
  arith, format_int, format_digits, digit, ltb, if◌then◌else◌, some, ok, lookup, lookup-insert_same,
  lookup-insert_other, [],
}
use test_api.Domain.Task.{TaskFilter, TaskPage}
use test_api.Cache.{
  Redis, text, TaskCache, PageJson, generation_key, list_key, generation, as_generation, get, set,
  command, get_key, set_key,
}

-- Whether a text starts with the letter g.
abbrev starts_g : String → Bool
starts_g nil = false
starts_g (c ∷ s) = code c == 103

record IsPlain (s : String) : Type 0 where
  at : starts_g s ≡ false

plain : (s : String) → starts_g s ≡ false → IsPlain s
plain s h = record { at = h }

IsPlain-append : (s t : String) → IsPlain s → IsPlain t → IsPlain (s <> t)
IsPlain-append nil t h k = rw (nil-append t) k
IsPlain-append (c ∷ s) t h k = rw (cons-append c s t) (record { at = h.at })

IsPlain-if : (b : Bool) (s t : String) → IsPlain s → IsPlain t → IsPlain (if b then s else t)
IsPlain-if true s t h k = h
IsPlain-if false s t h k = k

IsPlain-digit : (d : ℕ) → IsPlain (digit d)
unfolding digit
IsPlain-digit d = IsPlain-if (d == 0) "0" _ (plain "0" refl) (
    IsPlain-if (d == 1) "1" _ (plain "1" refl) (
      IsPlain-if (d == 2) "2" _ (plain "2" refl) (
        IsPlain-if (d == 3) "3" _ (plain "3" refl) (
          IsPlain-if (d == 4) "4" _ (plain "4" refl) (
            IsPlain-if (d == 5) "5" _ (plain "5" refl) (
              IsPlain-if (d == 6) "6" _ (plain "6" refl) (
                IsPlain-if (d == 7) "7" _ (plain "7" refl)
                  (IsPlain-if (d == 8) "8" _ (plain "8" refl) (plain "9" refl)))))))))

IsPlain-format_digits : (fuel n : ℕ) → IsPlain (format_digits fuel n)
unfolding format_digits
IsPlain-format_digits zero n = record { at = refl }
IsPlain-format_digits (suc fuel) n =
    IsPlain-if (ltb n 10) (digit n) (format_digits fuel (n / 10) <> digit (n % 10))
      (IsPlain-digit n)
      (IsPlain-append _ _ (IsPlain-format_digits fuel (n / 10)) (IsPlain-digit (n % 10)))

IsPlain-format_int : (n : ℤ) → IsPlain (format_int n)
unfolding format_int
IsPlain-format_int (pos n) = IsPlain-format_digits (suc n) n
IsPlain-format_int (negsuc n) =
    IsPlain-append "-" _ (plain "-" refl) (IsPlain-format_digits (suc (suc n)) (suc n))

IsPlain-colon : (s : String) → IsPlain (":" <> s)
IsPlain-colon s = rw (cons-append ":" "" s) (record { at = refl })

starts_g-gen : (s : String) → IsPlain ("gen:" <> s) → ⊥
starts_g-gen s h =
    let start : IsPlain ("g" ∷ ("en:" <> s)) = subst IsPlain (cons-append "g" "en:" s) h in
    let absurd : true ≡ false = start.at in cc

-- The key of a page is none of the keys that count the generations.
pub keys_differ : (team_id : ℤ) (f : TaskFilter) (n : ℕ) → generation_key team_id ≢ list_key f n
unfolding generation_key list_key
keys_differ team_id f n e =
    let same =
      append_cancel_left "tasks:" ("gen:" <> format_int team_id) _
        (sym (append_assoc "tasks:" "gen:" (format_int team_id)) ∙ e) in
    let start =
      IsPlain-append (format_int f.team_id) _ (IsPlain-format_int f.team_id) (IsPlain-colon _) in
    starts_g-gen (format_int team_id) (subst IsPlain (sym same) start)

-- In a cache that is in use and whose next commands work, where the generation of the team can be
-- read: a page that has a JSON text, from which it can be read back, is found once it is stored.
pub get-set :
    (c : TaskCache) (json : PageJson) (f : TaskFilter) (page : TaskPage) (r : Redis) (n : ℕ)
    (payload : String)
    → c.enabled ≡ true
    → r.outcomes ≡ []
    → as_generation (ok (lookup (generation_key f.team_id) r.entries)) ≡ ok n
    → json.marshal page ≡ some payload
    → json.unmarshal payload ≡ some page
    → (get c json f (set c json f page r)).0 ≡ some page
unfolding get set generation get_key set_key command
get-set c json f page r n payload enabled healthy current encoded decoded = ground (
  arith,
  lookup-insert_same (list_key f n) (text payload) r.entries,
  lookup-insert_other (list_key f n) (generation_key f.team_id) (text payload) r.entries
      (λ e. keys_differ f.team_id f n (sym e)),
)
