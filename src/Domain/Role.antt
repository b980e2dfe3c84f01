-- ===== src/Domain/Role.antt =====
-- internal/domain/role.go: `type Role string`.
use test_api.Prelude.{String, Bool, ◌||◌, ◌==◌, string_eq}

abbrev pub Role : Type 0
Role = String

abbrev pub role_owner : Role
role_owner = "owner"

abbrev pub role_admin : Role
role_admin = "admin"

abbrev pub role_member : Role
role_member = "member"

-- `Role.Valid`
unfoldable pub valid : Role → Bool
valid r = r == role_owner || r == role_admin || r == role_member

unfoldable pub assignable : Role → Bool
assignable r = r == role_admin || r == role_member

unfoldable pub can_manage_members : Role → Bool
can_manage_members r = r == role_owner || r == role_admin

unfoldable pub can_edit_any_task : Role → Bool
can_edit_any_task r = r == role_owner || r == role_admin

unfoldable pub can_view_stats : Role → Bool
can_view_stats r = r == role_owner || r == role_admin
