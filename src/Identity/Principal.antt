-- ===== src/Identity/Principal.antt =====
-- Who acts: identity/public.py, and the policies of identity/domain/policies.py.
use reading_wiki.Prelude.{ℕ, Bool, true, false, ◌&&◌, ◌||◌, Option}
use reading_wiki.Identity.Quota.Kinds.{QuotaKind}

pub data Role : Type 0 where
  user admin : Role

pub data AccountStatus : Type 0 where
  active suspended banned : AccountStatus

-- `quota_limits` is a mapping, which may lack a kind.
pub record Principal : Type 0 where
  pub user_id : ℕ
  pub role : Role
  pub status : AccountStatus
  pub email_verified : Bool
  pub quota_limits : QuotaKind → Option ℕ

abbrev pub role_is_admin : Role → Bool
role_is_admin admin = true
role_is_admin user = false

abbrev pub is_active : AccountStatus → Bool
is_active active = true
is_active _ = false

abbrev pub is_admin : Principal → Bool
is_admin p = role_is_admin p.role

unfoldable pub spend_allowed : Principal → Bool
spend_allowed p = is_active p.status && (is_admin p || p.email_verified)
