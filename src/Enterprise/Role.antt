-- ===== src/Enterprise/Role.antt =====
-- backend/app/models/role.py.
use product_intelligence.Base.{ℕ, ◌≡◌, refl, Bool, true, false, List, [], ◌∷◌, leb, any_by}
use product_intelligence.Text.Strings.{Text, codes}

pub data Permission : Type 0 where
  manage_organization manage_api_keys view_audit view_usage write read : Permission

pub data Role : Type 0 where
  owner admin member viewer : Role

-- `role.value`
abbrev pub role_value : Role → Text
role_value owner = codes "owner"
role_value admin = codes "admin"
role_value member = codes "member"
role_value viewer = codes "viewer"

abbrev pub same_permission : Permission → Permission → Bool
same_permission manage_organization manage_organization = true
same_permission manage_api_keys manage_api_keys = true
same_permission view_audit view_audit = true
same_permission view_usage view_usage = true
same_permission write write = true
same_permission read read = true
same_permission _ _ = false

abbrev pub role_permissions : Role → List Permission
role_permissions viewer = read ∷ []
role_permissions member = read ∷ write ∷ []
role_permissions admin = read ∷ write ∷ manage_api_keys ∷ view_audit ∷ view_usage ∷ []
role_permissions owner =
    manage_organization ∷ manage_api_keys ∷ view_audit ∷ view_usage ∷ write ∷ read ∷ []

unfoldable pub role_has_permission : Role → Permission → Bool
role_has_permission role permission = any_by (same_permission permission) (role_permissions role)

-- The roles from the narrowest up, and the first of them that may use a permission.
abbrev pub rank : Role → ℕ
rank viewer = 0
rank member = 1
rank admin = 2
rank owner = 3

abbrev pub required_rank : Permission → ℕ
required_rank read = 0
required_rank write = 1
required_rank manage_organization = 3
required_rank _ = 2

-- The roles are cumulative: a role has a permission exactly when it stands at or above the first role
-- that has it (viewer: read; member: write; admin: keys, audit and usage; owner: organizations).
pub role_has_permission-iff-rank :
    (role : Role) (permission : Permission)
    → role_has_permission role permission ≡ leb (required_rank permission) (rank role)
unfolding role_has_permission
role_has_permission-iff-rank owner manage_organization = refl
role_has_permission-iff-rank owner manage_api_keys = refl
role_has_permission-iff-rank owner view_audit = refl
role_has_permission-iff-rank owner view_usage = refl
role_has_permission-iff-rank owner write = refl
role_has_permission-iff-rank owner read = refl
role_has_permission-iff-rank admin manage_organization = refl
role_has_permission-iff-rank admin manage_api_keys = refl
role_has_permission-iff-rank admin view_audit = refl
role_has_permission-iff-rank admin view_usage = refl
role_has_permission-iff-rank admin write = refl
role_has_permission-iff-rank admin read = refl
role_has_permission-iff-rank member manage_organization = refl
role_has_permission-iff-rank member manage_api_keys = refl
role_has_permission-iff-rank member view_audit = refl
role_has_permission-iff-rank member view_usage = refl
role_has_permission-iff-rank member write = refl
role_has_permission-iff-rank member read = refl
role_has_permission-iff-rank viewer manage_organization = refl
role_has_permission-iff-rank viewer manage_api_keys = refl
role_has_permission-iff-rank viewer view_audit = refl
role_has_permission-iff-rank viewer view_usage = refl
role_has_permission-iff-rank viewer write = refl
role_has_permission-iff-rank viewer read = refl
