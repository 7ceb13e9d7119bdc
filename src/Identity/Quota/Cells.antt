-- ===== src/Identity/Quota/Cells.antt =====
-- What one cell of the quota table, a user's count of one kind in one month, shows after each
-- operation of the repository. The order of the rows is forgotten here.
use reading_wiki.Prelude.{
  ℕ, ◌+◌, ◌-◌, ◌≡◌, ◌∙◌, inl, inr, Bool, true, false, ◌&&◌, none, some, List, [], ◌∷◌, arith, leb,
  ◌==◌, if◌then◌else◌, min, is_some, Option-cases, Bool-cases, first_match, put_first,
  first_match_holds, first_match-put, first_match-put_ne, first_match-append,
}
use reading_wiki.Identity.Quota.Kinds.{QuotaKind, same_kind}
use reading_wiki.Identity.Quota.Table.{
  Usage, used, set_used, is_row, fresh_row, find_row, get_usage, ensure_row, set_row, bump,
  try_reserve, refund,
}

used-set_used :
    (k j : QuotaKind) (n : ℕ) (u : Usage)
    → used j (set_used k n u) ≡ (if same_kind k j then n else used j u)
unfolding used set_used
used-set_used k j n u = ground arith

used-fresh : (k : QuotaKind) (user period : ℕ) → used k (fresh_row user period) ≡ 0
unfolding used
used-fresh k user period = ground arith

is_row-set_used :
    (k : QuotaKind) (n user period : ℕ) (u : Usage)
    → is_row user period (set_used k n u) ≡ is_row user period u
unfolding set_used
is_row-set_used k n user period u = ground arith

abbrev pub same_row : ℕ → ℕ → ℕ → ℕ → Bool
same_row user period user' period' = user == user' && period == period'

pub get_usage-ensure_row :
    (user period user' period' : ℕ) (t : List Usage) (k : QuotaKind)
    → get_usage user' period' (ensure_row user period t) k ≡ get_usage user' period' t k
unfolding get_usage ensure_row first_match
get_usage-ensure_row user period user' period' t k = ground (
  arith,
  first_match-append (is_row user' period') t (fresh_row user period ∷ []),
  used-fresh k user period,
)

pub find_row-ensure_row :
    (user period : ℕ) (t : List Usage)
    → is_some (find_row user period (ensure_row user period t)) ≡ true
unfolding ensure_row first_match
find_row-ensure_row user period t =
    ground (arith, first_match-append (is_row user period) t (fresh_row user period ∷ []))

apart :
    (user period user' period' : ℕ)
    → same_row user period user' period' ≡ false
    → (x : Usage) → is_row user period x ≡ true
    → is_row user' period' x ≡ false
apart user period user' period' h x e = ground arith

-- The row that a look-up finds after its row, or another one, was replaced.
find_row-put :
    (user period user' period' : ℕ) (v : Usage) (t : List Usage)
    → is_row user period v ≡ true
    → is_some (find_row user period t) ≡ true
    → find_row user' period' (put_first (is_row user period) v t)
      ≡ (if same_row user period user' period' then some v else find_row user' period' t)
find_row-put user period user' period' v t is_v there =
    elim (Bool-cases (same_row user period user' period')) [
      | inl same ↦
          let eu : user ≡ user' = ground arith in
          let ep : period ≡ period' = ground arith in
          rw (same, ← eu, ← ep) (rw (first_match-put (is_row user period) v t is_v, there))
      | inr other ↦ rw other (
          first_match-put_ne (is_row user period) (is_row user' period') v t
            (apart user period user' period' other) (apart user period user' period' other v is_v))
    ]

-- A write is seen at its own cell and nowhere else.
pub get_usage-set_row :
    (user period user' period' : ℕ) (k j : QuotaKind) (n : ℕ) (t : List Usage)
    → is_some (find_row user period t) ≡ true
    → get_usage user' period' (set_row user period k n t) j ≡ (
        if same_row user period user' period' && same_kind k j
        then n
        else get_usage user' period' t j)
unfolding get_usage set_row
get_usage-set_row user period user' period' k j n t there =
    elim (Option-cases (find_row user period t)) [
      | inl missing ↦ ground arith
      | inr (u, found) ↦
          let is_u = first_match_holds (is_row user period) t {x = u} found in
          ground (
            arith,
            used-set_used k j n u,
            find_row-put user period user' period' (set_used k n u) t
                (is_row-set_used k n user period u ∙ is_u) there,
          )
    ]

-- Whether two cells are the same one.
abbrev pub same_cell : ℕ → ℕ → QuotaKind → ℕ → ℕ → QuotaKind → Bool
same_cell user period k user' period' j = same_row user period user' period' && same_kind k j

get_usage-same_cell :
    (user period user' period' : ℕ) (k j : QuotaKind) (t : List Usage)
    → same_cell user period k user' period' j ≡ true
    → get_usage user period t k ≡ get_usage user' period' t j
get_usage-same_cell user period user' period' k j t h =
    let eu : user ≡ user' = ground arith in
    let ep : period ≡ period' = ground arith in let ek : k ≡ j = ground arith in cc

get_usage-missing :
    (user period : ℕ) (k : QuotaKind) (t : List Usage)
    → find_row user period t ≡ none
    → get_usage user period t k ≡ 0
unfolding get_usage
get_usage-missing user period k t h = ground arith

get_usage-found :
    (user period : ℕ) (k : QuotaKind) (t : List Usage) (u : Usage)
    → find_row user period t ≡ some u
    → get_usage user period t k ≡ used k u
unfolding get_usage
get_usage-found user period k t u h = ground arith

module _ (user period user' period' : ℕ) (k j : QuotaKind) (n : ℕ) (t : List Usage) where
  pub get_usage-bump : get_usage user' period' (bump user period k n t) j ≡ (
      if same_cell user period k user' period' j
      then get_usage user' period' t j + n
      else get_usage user' period' t j)
  unfolding bump
  get_usage-bump = ground (
    arith,
    get_usage-set_row user period user' period' k j
        (get_usage user period (ensure_row user period t) k + n) (ensure_row user period t),
    find_row-ensure_row user period t,
    get_usage-ensure_row user period user period t k,
    get_usage-ensure_row user period user' period' t j,
    get_usage-same_cell user period user' period' k j t,
  )

  -- A reservation is granted exactly when the count and the units fit the limit, and then adds
  -- the units; a refused one changes no count.
  pub get_usage-try_reserve :
      (limit : ℕ)
      → ((try_reserve user period k n limit t).0 ≡ leb (get_usage user period t k + n) limit)
        × (get_usage user' period' (try_reserve user period k n limit t).1 j ≡ (
            if leb (get_usage user period t k + n) limit && same_cell user period k user' period' j
            then get_usage user' period' t j + n
            else get_usage user' period' t j))
  unfolding try_reserve
  get_usage-try_reserve limit = ground (
    arith,
    get_usage-set_row user period user' period' k j
        (get_usage user period (ensure_row user period t) k + n) (ensure_row user period t),
    find_row-ensure_row user period t,
    get_usage-ensure_row user period user period t k,
    get_usage-ensure_row user period user' period' t j,
    get_usage-same_cell user period user' period' k j t,
  )

  -- A refund gives back the units, but no more than were counted.
  pub get_usage-refund :
      ((refund user period k n t).0 ≡ min n (get_usage user period t k))
      × (get_usage user' period' (refund user period k n t).1 j ≡ (
          if same_cell user period k user' period' j
          then get_usage user' period' t j - n
          else get_usage user' period' t j))
  unfolding refund
  get_usage-refund = elim (Option-cases (find_row user period t)) [
    | inl missing ↦ ground (
      arith,
      get_usage-missing user period k t missing,
      get_usage-same_cell user period user' period' k j t,
    )
    | inr (u, found) ↦ ground (
      arith,
      get_usage-found user period k t u found,
      get_usage-set_row user period user' period' k j (used k u - min n (used k u)) t,
      get_usage-same_cell user period user' period' k j t,
    )
  ]
