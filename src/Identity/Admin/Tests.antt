-- ===== src/Identity/Admin/Tests.antt =====
-- The administration of two accounts.
use reading_wiki.Prelude.{ℕ, ◌<◌, List, [], ◌∷◌, arith, count_where}
use reading_wiki.Errors.{Exec, Result}
use reading_wiki.Identity.Principal.{Role, AccountStatus}
use reading_wiki.Identity.Admin.{UserRow, AdminDb, Field}
use reading_wiki.Identity.Admin.Admins.{Request, admins, serve_all, serve_all-admins}

abbrev keeper : UserRow
keeper = record { id = 1; role = Role.admin; status = AccountStatus.active; quotas = λ k. 100 }

abbrev reader : UserRow
reader = record { id = 2; role = Role.user; status = AccountStatus.active; quotas = λ k. 30 }

abbrev accounts : AdminDb (Unit {0})
accounts = record { users = keeper ∷ reader ∷ []; sessions = 2 ∷ []; outside = tt }

abbrev revoke_nothing : ℕ → Exec (Unit {0}) (Unit {0})
revoke_nothing i w = (Result.ok tt, w)

-- The reader is promoted and removes the keeper; a demotion of the reader then is refused.
abbrev requests : List Request
requests =
    Request.update 2 (Field.set_role "admin" ∷ []) 1
    ∷ Request.delete 1 2
    ∷ Request.update 2 (Field.set_role "user" ∷ []) 1
    ∷ []

has_admin : 0 < admins accounts.users
unfolding count_where
has_admin = omega arith

serve_all-admins_example : 0 < admins (serve_all revoke_nothing requests accounts).users
serve_all-admins_example = serve_all-admins revoke_nothing requests accounts has_admin
