-- ===== src/Errors.antt =====
-- The exceptions that cross application boundaries (novelwiki/kernel/errors.py), those that the
-- stores raise, and actions on a state that may raise. What was written before a raise stays
-- written unless the action stands in a transaction, so the state comes back beside the error too.
-- The texts of the messages are left out.
use reading_wiki.Prelude.{
  ◌≡◌, refl, ◌⊎◌, inl, inr, Bool, true, false, Option, none, some, if◌then◌else◌,
}

pub data Error : Type 0 where
  not_found forbidden conflict validation_failed invalid_operation : Error
  quota_exceeded provider_unavailable rate_limited : Error
  value_error runtime_error backend_policy_changed active_job_limit : Error
  -- PostgreSQL's "integer out of range"
  out_of_range : Error
  -- "null value in column"
  null_value : Error

pub data Result {ℓ} (A : Type ℓ) : Type ℓ where
  ok : A → Result A
  err : Error → Result A

pub Result-cases :
    {A : Type 0} (r : Result A) → ((e : Error) × (r ≡ err e)) ⊎ ((a : A) × (r ≡ ok a))
Result-cases (ok a) = inr (a, refl)
Result-cases (err e) = inl (e, refl)

abbrev pub Exec : Type 0 → Type 0 → Type 0
Exec S A = S → Result A × S

module _ {S A : Type 0} where
  unfoldable pub pure : A → Exec S A
  pure a s = (ok a, s)

  unfoldable pub raise : Error → Exec S A
  raise e s = (err e, s)

  unfoldable pub gets : (S → A) → Exec S A
  gets f s = (ok (f s), s)

  unfoldable pub lift : Result A → Exec S A
  lift r s = (r, s)

  -- A branch between two actions.
  infix 1 when◌then◌else◌
  unfoldable pub when◌then◌else◌ : Bool → Exec S A → Exec S A → Exec S A
  when◌then◌else◌ c m n s = if c then m s else n s

  unfoldable pub or_raise : Option A → Error → Exec S A
  or_raise none e s = (err e, s)
  or_raise (some a) e s = (ok a, s)

  abbrev pub commit_or_rollback : Result A → S → S → Result A × S
  commit_or_rollback (ok a) s s' = (ok a, s')
  commit_or_rollback (err e) s s' = (err e, s)

  -- `async with conn.transaction()`: a raise rolls the state back.
  unfoldable pub atomically : Exec S A → Exec S A
  atomically m s = let (r, s') = m s in commit_or_rollback r s s'

  abbrev pub rescue : Result A → (Error → Exec S A) → Exec S A
  rescue (ok a) handler s = (ok a, s)
  rescue (err e) handler s = handler e s

  -- `try: m except Exception as exc: handler(exc)`
  unfoldable pub catch : Exec S A → (Error → Exec S A) → Exec S A
  catch m handler s = let (r, s') = m s in rescue r handler s'

module _ {S A B : Type 0} where
  abbrev pub continue : Result A → (A → Exec S B) → Exec S B
  continue (ok a) f s = f a s
  continue (err e) f s = (err e, s)

  -- A branch on a value that may be missing.
  unfoldable pub on_option : Option A → Exec S B → (A → Exec S B) → Exec S B
  on_option none m f s = m s
  on_option (some a) m f s = f a s

module _ {S : Type 0} where
  unfoldable pub raise_if : Bool → Error → Exec S (Unit {0})
  raise_if true e s = (err e, s)
  raise_if false e s = (ok tt, s)

  unfoldable pub modify : (S → S) → Exec S (Unit {0})
  modify f s = (ok tt, f s)

infixl 5 ◌>>=◌ ◌>>◌
-- To open this is to open every combinator above.
unfoldable pub ◌>>=◌ : {S A B : Type 0} → Exec S A → (A → Exec S B) → Exec S B
unfolding pure raise gets lift when◌then◌else◌ or_raise atomically catch on_option raise_if modify
◌>>=◌ m f s = let (r, s') = m s in continue r f s'

abbrev pub ◌>>◌ : {S B : Type 0} → Exec S (Unit {0}) → Exec S B → Exec S B
m >> k = m >>= λ _. k
