-- ===== src/Store/Teams/Owners.antt =====
-- The invariant of teams and their members: one owner for each team, and keys that hold.
use test_api.Prelude.{
  ℕ, suc, ◌+◌, ◌≤◌, ℤ, pos, pos_part, neg_part, ◌≡◌, ◌≢◌, refl, Bool, true, false, ◌&&◌, List, [],
  ◌∷◌, ◌++◌, ◌==◌, int_eq, string_eq, int_beq_iff, eq_iff, if◌then◌else◌, subst, ◌∙◌, inl, inr,
  Bool-cases, any, All, All-append, All-imp, arith,
}
use test_api.Domain.Role.{Role, role_owner}
use test_api.Store.Schema.{Tables, Counters, TeamRow, MemberRow, is_member}
use test_api.Store.Driver.{classify}
use test_api.Store.Driver.Keeps.{Keeps, KeepsStatement, Keeps-query, Grows}
use test_api.Store.Teams.{insert_member, set_role, add_member}

-- How many owners the team has.
abbrev pub owners : ℤ → List MemberRow → ℕ
owners id [] = 0
owners id (m ∷ ms) = (if m.team_id == id && m.role == role_owner then 1 else 0) + owners id ms

-- The primary key of `team_members`.
abbrev pub IsKeyed : List MemberRow → Type 0
IsKeyed [] = Unit
IsKeyed (m ∷ ms) = (any (is_member m.team_id m.user_id) ms ≡ false) × IsKeyed ms

infix 50 ◌<ℤ◌
abbrev pub ◌<ℤ◌ : ℤ → ℕ → Type 0
a <ℤ n = suc (pos_part a) ≤ n + neg_part a

abbrev pub HasOneOwner : List MemberRow → TeamRow → Type 0
HasOneOwner ms t = owners t.id ms ≡ 1

pub record TeamsValid (t : Tables) (n : Counters) : Type 0 where
  pub one_owner : All (HasOneOwner t.team_members) t.teams
  pub teams_below : All (λ r. r.id <ℤ n.teams) t.teams
  pub members_below : All (λ m. m.team_id <ℤ n.teams) t.team_members
  pub keyed : IsKeyed t.team_members

pub owners-append :
    (id : ℤ) (ms : List MemberRow) (m : MemberRow)
    → owners id (ms ++ m ∷ []) ≡ owners id ms + owners id (m ∷ [])
owners-append id [] m = omega arith
owners-append id (x ∷ ms) m = omega (arith, owners-append id ms m)

pub owners-below :
    (n : ℕ) (ms : List MemberRow) → All (λ m. m.team_id <ℤ n) ms → owners (pos n) ms ≡ 0
owners-below n [] h = refl
owners-below n (m ∷ ms) h = ground (arith, owners-below n ms h.1, int_beq_iff m.team_id (pos n))

is_member-flip :
    (x m : MemberRow)
    → is_member m.team_id m.user_id x ≡ false
    → is_member x.team_id x.user_id m ≡ false
is_member-flip x m h = ground (
  arith,
  int_beq_iff x.team_id m.team_id,
  int_beq_iff x.user_id m.user_id,
  int_beq_iff m.team_id x.team_id,
  int_beq_iff m.user_id x.user_id,
)

any-append :
    (ms : List MemberRow) (m : MemberRow) (team_id user_id : ℤ)
    → any (is_member team_id user_id) ms ≡ false
    → is_member team_id user_id m ≡ false
    → any (is_member team_id user_id) (ms ++ m ∷ []) ≡ false
unfolding any
any-append [] m team_id user_id h k = ground arith
any-append (x ∷ ms) m team_id user_id h k = ground (arith, any-append ms m team_id user_id)

pub IsKeyed-append :
    (ms : List MemberRow) (m : MemberRow)
    → IsKeyed ms
    → any (is_member m.team_id m.user_id) ms ≡ false
    → IsKeyed (ms ++ m ∷ [])
unfolding any
IsKeyed-append [] m k h = (refl, tt)
IsKeyed-append (x ∷ ms) m k h = (
  any-append ms m x.team_id x.user_id k.0 (is_member-flip x m (ground arith)),
  IsKeyed-append ms m k.1 (ground arith),
)

pub TeamsValid-Grows :
    (t : Tables) (n n' : Counters) → TeamsValid t n → Grows n n' → TeamsValid t n'
TeamsValid-Grows t n n' v g = record {
  one_owner = v.one_owner;
  teams_below = All-imp _ _ t.teams (λ r h. omega (arith, g.teams)) v.teams_below;
  members_below = All-imp _ _ t.team_members (λ m h. omega (arith, g.teams)) v.members_below;
  keyed = v.keyed;
}

pub any-All :
    {A : Type 0} (p : A → Bool) (P : A → Type 0) (xs : List A)
    → any p xs ≡ true
    → All P xs
    → (x : A) × (p x ≡ true) × P x
unfolding any
any-All p P [] e h = cc
any-All p P (x ∷ xs) e h = elim (Bool-cases (p x)) [
  | inl here ↦ (x, here, h.0)
  | inr there ↦ any-All p P xs (ground arith) h.1
]

has_team-below :
    (t : Tables) (n : Counters) (id : ℤ)
    → TeamsValid t n
    → any (λ r. r.id == id) t.teams ≡ true
    → id <ℤ n.teams
has_team-below t n id v e =
    let (r, same, below) = any-All (λ r. r.id == id) _ t.teams e v.teams_below in
    subst (λ i. i <ℤ n.teams) ((int_beq_iff r.id id).0 same) below

-- The tables with one more member.
abbrev with_member : Tables → ℤ → ℤ → Role → Tables
with_member t team_id user_id role = record t {
  team_members =
      t.team_members ++ record { team_id = team_id; user_id = user_id; role = role } ∷ [];
}

with_member-TeamsValid :
    (t : Tables) (n : Counters) (team_id user_id : ℤ) (role : Role)
    → role ≢ role_owner
    → TeamsValid t n
    → any (is_member team_id user_id) t.team_members ≡ false
    → team_id <ℤ n.teams
    → TeamsValid (with_member t team_id user_id role) n
with_member-TeamsValid t n team_id user_id role other v free below = record {
  one_owner =
      All-imp _ _ t.teams
        (λ r h. ground (
          arith,
          owners-append r.id t.team_members
              (record { team_id = team_id; user_id = user_id; role = role }),
          eq_iff role role_owner,
        ))
        v.one_owner;
  teams_below = v.teams_below;
  members_below = All-append _ t.team_members _ v.members_below below;
  keyed = IsKeyed-append t.team_members _ v.keyed free;
}

-- One more member who is not an owner.
insert_member-TeamsValid :
    (team_id user_id : ℤ) (role : Role)
    → role ≢ role_owner
    → KeepsStatement TeamsValid (insert_member team_id user_id role)
unfolding insert_member
insert_member-TeamsValid team_id user_id role other = record {
  at = λ d v. ground (
    arith,
    with_member-TeamsValid d.tables d.next team_id user_id role other v,
    has_team-below d.tables d.next team_id v,
  );
}

pub add_member-TeamsValid :
    (team_id user_id : ℤ) (role : Role)
    → role ≢ role_owner
    → Keeps TeamsValid (add_member team_id user_id role)
unfolding add_member
add_member-TeamsValid team_id user_id role other =
    Keeps-query (insert_member team_id user_id role) classify "insert team member"
      (insert_member-TeamsValid team_id user_id role other)

-- The member, if there, is not the owner.
abbrev pub NotOwnerAt : ℤ → ℤ → List MemberRow → Type 0
NotOwnerAt team_id user_id = All (λ m. is_member team_id user_id m ≡ true → m.role ≢ role_owner)

module _ (team_id user_id : ℤ) (role : Role) where
  owners-set_role :
      (id : ℤ) (ms : List MemberRow)
      → role ≢ role_owner
      → NotOwnerAt team_id user_id ms
      → owners id (set_role team_id user_id role ms) ≡ owners id ms
  unfolding set_role
  owners-set_role id [] other h = refl
  owners-set_role id (m ∷ ms) other h = ground (
    arith,
    owners-set_role id ms other h.1,
    h.0,
    eq_iff m.role role_owner,
    eq_iff role role_owner,
  )

  any-set_role :
      (t u : ℤ) (ms : List MemberRow)
      → any (is_member t u) (set_role team_id user_id role ms) ≡ any (is_member t u) ms
  unfolding any set_role
  any-set_role t u [] = refl
  any-set_role t u (m ∷ ms) = ground (arith, any-set_role t u ms)

  set_role-IsKeyed : (ms : List MemberRow) → IsKeyed ms → IsKeyed (set_role team_id user_id role ms)
  unfolding set_role
  set_role-IsKeyed [] k = tt
  set_role-IsKeyed (m ∷ ms) k =
      ground (arith, any-set_role m.team_id m.user_id ms, set_role-IsKeyed ms k.1)

  set_role-below :
      (n : ℕ) (ms : List MemberRow)
      → All (λ m. m.team_id <ℤ n) ms
      → All (λ m. m.team_id <ℤ n) (set_role team_id user_id role ms)
  unfolding set_role
  set_role-below n [] h = tt
  set_role-below n (m ∷ ms) h = ground (arith, set_role-below n ms h.1)

  pub set_role-TeamsValid :
      (t : Tables) (n : Counters)
      → role ≢ role_owner
      → NotOwnerAt team_id user_id t.team_members
      → TeamsValid t n
      → TeamsValid (record t { team_members = set_role team_id user_id role t.team_members }) n
  set_role-TeamsValid t n other h v = record {
    one_owner =
        All-imp _ _ t.teams (λ r one. owners-set_role r.id t.team_members other h ∙ one)
          v.one_owner;
    teams_below = v.teams_below;
    members_below = set_role-below n.teams t.team_members v.members_below;
    keyed = set_role-IsKeyed t.team_members v.keyed;
  }
