-- ===== src/Identity/Admin.antt =====
-- The administration of accounts: `IdentityAdminService` of identity/application/admin.py over
-- identity/adapters/outbound/postgres_admin.py. `revoke_ai_jobs` is the callback that the service
-- is made with; it acts on what lies outside, a value of type `W`.
pub mod Admins
mod Tests
use reading_wiki.Prelude.{
  ℕ, String, Bool, true, false, not, ◌&&◌, ◌||◌, Option, none, some, List, [], ◌∷◌, str_eq, ◌==◌,
  if◌then◌else◌, is_some, first_match, put_first, select, count_where,
}
use reading_wiki.Errors.{
  Exec, ok, pure, gets, modify, atomically, raise_if, or_raise, when◌then◌else◌, ◌>>=◌, ◌>>◌,
  validation_failed, invalid_operation, not_found,
}
use reading_wiki.Identity.Principal.{Role, AccountStatus, role_is_admin, is_active}
use reading_wiki.Identity.Quota.Kinds.{QuotaKind, same_kind}

pub record UserRow : Type 0 where
  pub id : ℕ
  pub role : Role
  pub status : AccountStatus
  pub quotas : QuotaKind → ℕ

pub record AdminDb (W : Type 0) : Type 0 where
  pub users : List UserRow
  -- the user of each session
  pub sessions : List ℕ
  pub outside : W

-- An entry of `fields`, a dictionary: a name stands in it once.
pub data Field : Type 0 where
  set_status set_role : String → Field
  set_quota : QuotaKind → ℕ → Field
  unknown : Field

-- `USER_STATUSES` and `USER_ROLES`
unfoldable pub parse_status : String → Option AccountStatus
parse_status s =
    if str_eq s "active"
    then some AccountStatus.active
    else if str_eq s "suspended"
    then some AccountStatus.suspended
    else if str_eq s "banned"
    then some AccountStatus.banned
    else none

unfoldable pub parse_role : String → Option Role
parse_role s =
    if str_eq s "user" then some Role.user else if str_eq s "admin" then some Role.admin else none

abbrev pub is_wrong : Field → Bool
is_wrong (set_status t) = not (is_some (parse_status t))
is_wrong (set_role t) = not (is_some (parse_role t))
is_wrong _ = false

abbrev pub inactive_text : Option AccountStatus → Bool
inactive_text none = false
inactive_text (some s) = not (is_active s)

-- `fields.get("status") in ("suspended", "banned")`, for this entry
abbrev pub suspends : Field → Bool
suspends (set_status t) = inactive_text (parse_status t)
suspends _ = false

abbrev pub user_text : Option Role → Bool
user_text none = false
user_text (some r) = not (role_is_admin r)

abbrev pub demotes : Field → Bool
demotes (set_role t) = user_text (parse_role t)
demotes _ = false

abbrev pub is_allowed : Field → Bool
is_allowed unknown = false
is_allowed _ = true

unfoldable pub any : (Field → Bool) → List Field → Bool
any p [] = false
any p (f ∷ fs) = p f || any p fs

abbrev pub is_empty : List Field → Bool
is_empty [] = true
is_empty (f ∷ fs) = false

abbrev pub has_id : ℕ → UserRow → Bool
has_id i u = u.id == i

abbrev pub is_admin : UserRow → Bool
is_admin u = role_is_admin u.role

abbrev pub other_admin : ℕ → UserRow → Bool
other_admin i u = is_admin u && not (has_id i u)

-- One assignment of the UPDATE.
abbrev pub assign_status : Option AccountStatus → UserRow → UserRow
assign_status none u = u
assign_status (some s) u = record u { status = s }

abbrev pub assign_role : Option Role → UserRow → UserRow
assign_role none u = u
assign_role (some r) u = record u { role = r }

abbrev pub assign : Field → UserRow → UserRow
assign (set_status t) u = assign_status (parse_status t) u
assign (set_role t) u = assign_role (parse_role t) u
assign (set_quota k n) u = record u { quotas = λ j. if same_kind j k then n else u.quotas j }
assign unknown u = u

unfoldable pub assign_all : List Field → UserRow → UserRow
assign_all [] u = u
assign_all (f ∷ fs) u = assign_all fs (assign f u)

-- `UPDATE users SET … WHERE id=$1`; `id` is the primary key.
abbrev pub update_row : ℕ → List Field → List UserRow → List UserRow
update_row i fs users = elim (first_match (has_id i) users) [
  | none ↦ users
  | some u ↦ put_first (has_id i) (assign_all fs u) users
]

-- `DELETE FROM users WHERE id=$1`
unfoldable pub remove_row : ℕ → List UserRow → List UserRow
remove_row i [] = []
remove_row i (u ∷ us) = if has_id i u then us else u ∷ remove_row i us

pub data Outcome : Type 0 where
  noop success : Outcome

abbrev pub role_of : Option UserRow → Option Role
role_of none = none
role_of (some u) = some u.role

module _ {W : Type 0} where
  unfoldable pub user_role : ℕ → Exec (AdminDb W) (Option Role)
  unfolding ◌>>=◌
  user_role i = gets (λ s. role_of (first_match (has_id i) s.users))

  unfoldable pub other_admin_count : ℕ → Exec (AdminDb W) ℕ
  unfolding ◌>>=◌
  other_admin_count i = gets (λ s. count_where (other_admin i) s.users)

  unfoldable pub write_user : ℕ → List Field → Exec (AdminDb W) (Unit {0})
  unfolding ◌>>=◌
  write_user i fs = modify (λ s. record s { users = update_row i fs s.users })

  unfoldable pub revoke_sessions : ℕ → Exec (AdminDb W) (Unit {0})
  unfolding ◌>>=◌
  revoke_sessions i = modify (λ s. record s { sessions = select (λ u. not (u == i)) s.sessions })

  unfoldable pub erase_user : ℕ → Exec (AdminDb W) (Unit {0})
  unfolding ◌>>=◌
  erase_user i = modify (λ s. record s { users = remove_row i s.users })

  unfoldable pub on_outside : Exec W (Unit {0}) → Exec (AdminDb W) (Unit {0})
  on_outside m s = let (r, w) = m s.outside in (r, record s { outside = w })

  unfoldable pub require_other_admin : ℕ → Exec (AdminDb W) (Unit {0})
  unfolding ◌>>=◌ other_admin_count
  require_other_admin i = do n ← other_admin_count i; raise_if (n == 0) invalid_operation

  -- The transaction of `update_user`.
  unfoldable pub change_user : ℕ → List Field → Exec (AdminDb W) (Unit {0})
  unfolding ◌>>=◌ user_role require_other_admin write_user revoke_sessions
  change_user i fs = atomically (do
    found ← user_role i
    role ← or_raise found not_found
    when role_is_admin role && any demotes fs then require_other_admin i else pure tt
    write_user i fs
    when any suspends fs then revoke_sessions i else pure tt)

  unfoldable pub update_user :
      (ℕ → Exec W (Unit {0})) → ℕ → List Field → ℕ → Exec (AdminDb W) Outcome
  unfolding ◌>>=◌
  update_user revoke_ai_jobs i fields administrator = when is_empty fields then pure noop else (do
    raise_if (any is_wrong fields) validation_failed
    raise_if ((i == administrator) && (any suspends fields || any demotes fields)) invalid_operation
    let allowed = select is_allowed fields
    when is_empty allowed then pure noop else (do
      change_user i allowed
      when any suspends allowed then on_outside (revoke_ai_jobs i) else pure tt
      pure success))

  unfoldable pub delete_user : ℕ → ℕ → Exec (AdminDb W) (Unit {0})
  unfolding ◌>>=◌ user_role require_other_admin erase_user
  delete_user i administrator = do
    raise_if (i == administrator) invalid_operation
    atomically (do
      found ← user_role i
      role ← or_raise found not_found
      when role_is_admin role then require_other_admin i else pure tt
      erase_user i)
