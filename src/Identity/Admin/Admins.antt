-- ===== src/Identity/Admin/Admins.antt =====
-- There is always an admin.
use reading_wiki.Prelude.{
  ℕ, ◌≤◌, ◌<◌, ◌≡◌, true, false, some, List, ◌==◌, [], ◌∷◌, arith, first_match, put_first,
  count_where, select, Option-cases, Bool-cases, inl, inr,
}
use reading_wiki.Errors.{Exec}
use reading_wiki.Identity.Admin.{
  UserRow, AdminDb, Field, is_admin, other_admin, has_id, demotes, any, assign, assign_all,
  remove_row, update_user, delete_user, change_user, on_outside, is_allowed,
}

abbrev pub admins : List UserRow → ℕ
admins us = count_where is_admin us

assign_all-is_admin :
    (fs : List Field) (u : UserRow)
    → any demotes fs ≡ false
    → is_admin u ≡ true
    → is_admin (assign_all fs u) ≡ true
unfolding any assign_all
assign_all-is_admin [] u plain h = h
assign_all-is_admin (f ∷ fs) u plain h =
    assign_all-is_admin fs (assign f u) (ground arith) (ground arith)

others_le : (i : ℕ) (us : List UserRow) → count_where (other_admin i) us ≤ admins us
unfolding count_where
others_le i [] = omega arith
others_le i (u ∷ us) = ground (arith, others_le i us)

put-others :
    (i : ℕ) (v : UserRow) (us : List UserRow)
    → count_where (other_admin i) us ≤ admins (put_first (has_id i) v us)
unfolding put_first count_where
put-others i v [] = omega arith
put-others i v (u ∷ us) = ground (arith, put-others i v us, others_le i us)

put_keeps :
    (i : ℕ) (v : UserRow) (us : List UserRow) {u : UserRow}
    → first_match (has_id i) us ≡ some u
    → (is_admin u ≡ true → is_admin v ≡ true)
    → admins us ≤ admins (put_first (has_id i) v us)
unfolding put_first count_where first_match
put_keeps i v [] h keep = omega arith
put_keeps i v (x ∷ us) {u = u} h keep = ground (arith, put_keeps i v us {u = u})

remove-others :
    (i : ℕ) (us : List UserRow) → count_where (other_admin i) us ≤ admins (remove_row i us)
unfolding remove_row count_where
remove-others i [] = omega arith
remove-others i (u ∷ us) = ground (arith, remove-others i us, others_le i us)

remove_keeps :
    (i : ℕ) (us : List UserRow) {u : UserRow}
    → first_match (has_id i) us ≡ some u
    → is_admin u ≡ false
    → admins us ≤ admins (remove_row i us)
unfolding remove_row count_where first_match
remove_keeps i [] h plain = omega arith
remove_keeps i (x ∷ us) {u = u} h plain = ground (arith, remove_keeps i us {u = u})

module _ {W : Type 0} (i : ℕ) where
  change_user-admins :
      (fs : List Field) (s : AdminDb W)
      → 0 < admins s.users
      → 0 < admins (change_user i fs s).1.users
  unfolding change_user
  change_user-admins fs s h = elim (Option-cases (first_match (has_id i) s.users)) [
    | inl missing ↦ rw missing h
    | inr (u, there) ↦ rw there (
        ground (
          arith,
          put-others i (assign_all fs u) s.users,
          put_keeps i (assign_all fs u) s.users {u = u} there,
          assign_all-is_admin fs u,
        ))
  ]

  delete_user-admins :
      (administrator : ℕ) (s : AdminDb W)
      → 0 < admins s.users
      → 0 < admins (delete_user i administrator s).1.users
  unfolding delete_user
  delete_user-admins administrator s h = elim (Bool-cases (i == administrator)) [
    | inl own ↦ rw own h
    | inr apart ↦ rw apart (elim (Option-cases (first_match (has_id i) s.users)) [
      | inl missing ↦ rw missing h
      | inr (u, there) ↦
          rw there (ground (arith, remove-others i s.users, remove_keeps i s.users {u = u} there))
    ])
  ]

  update_user-admins :
      (revoke_ai_jobs : ℕ → Exec W (Unit {0})) (fs : List Field) (administrator : ℕ) (s : AdminDb W)
      → 0 < admins s.users
      → 0 < admins (update_user revoke_ai_jobs i fs administrator s).1.users
  unfolding update_user on_outside
  update_user-admins revoke_ai_jobs fs administrator s h =
      ground (arith, change_user-admins (select is_allowed fs) s h)

-- The calls of the service.
pub data Request : Type 0 where
  update : ℕ → List Field → ℕ → Request
  delete : ℕ → ℕ → Request

module _ {W : Type 0} (revoke_ai_jobs : ℕ → Exec W (Unit {0})) where
  -- The state after the call, whether it returned or raised.
  unfoldable pub serve : Request → AdminDb W → AdminDb W
  serve (update i fs administrator) s = (update_user revoke_ai_jobs i fs administrator s).1
  serve (delete i administrator) s = (delete_user i administrator s).1

  unfoldable pub serve_all : List Request → AdminDb W → AdminDb W
  serve_all [] s = s
  serve_all (r ∷ rs) s = serve_all rs (serve r s)

  -- Where there is an admin, there is one after any calls one after the other, whoever makes them
  -- and whatever the callback does.
  pub serve_all-admins :
      (rs : List Request) (s : AdminDb W) → 0 < admins s.users → 0 < admins (serve_all rs s).users
  unfolding serve_all serve
  serve_all-admins [] s h = h
  serve_all-admins (update i fs administrator ∷ rs) s h =
      serve_all-admins rs _ (update_user-admins i revoke_ai_jobs fs administrator s h)
  serve_all-admins (delete i administrator ∷ rs) s h =
      serve_all-admins rs _ (delete_user-admins i administrator s h)
