-- ===== src/Reading/Contributions.antt =====
-- Decided contributions among the rows.
use reading_wiki.Prelude.{
  ℕ, suc, ◌≡◌, refl, ◌∙◌, Bool, true, false, not, ◌&&◌, some, List, [], ◌∷◌, ◌++◌, ltb, arith,
  first_match, map_where, All, All-append, All-map_where, All-first_match, first_match_holds,
  first_match-append, first_match-map_where,
}
use reading_wiki.Reading.Tables.{Contribution}
use reading_wiki.Reading.Overlays.{is_contribution, is_pending}

module _ (k : ℕ) where
  -- No row of this id is pending.
  abbrev pub IsClosed : Contribution → Type 0
  IsClosed c = (is_contribution k c && is_pending c.status) ≡ false

  module _ (c : Contribution) where
    -- The id was given out, and its row is decided.
    abbrev pub IsDecided : List Contribution → ℕ → Type 0
    IsDecided cs next =
        (ltb k next ≡ true) × (All IsClosed cs × (first_match (is_contribution k) cs ≡ some c))

    pub append-IsDecided :
        (cs : List Contribution) (next : ℕ) (new : Contribution)
        → new.id ≡ next
        → IsDecided cs next
        → IsDecided (cs ++ (new ∷ [])) (suc next)
    append-IsDecided cs next new e (given, (closed, row)) = (
      ground (arith, given),
      (
        All-append IsClosed cs (new ∷ []) closed (ground (arith, given, e), tt),
        first_match-append (is_contribution k) cs (new ∷ []) ∙ rw row refl,
      ),
    )

    -- Rows that are not the decided one are decided.
    pub map_where-IsDecided :
        (p : Contribution → Bool) (f : Contribution → Contribution) (cs : List Contribution)
        (next : ℕ)
        → ((d : Contribution) → p d ≡ true → is_contribution k (f d) ≡ is_contribution k d)
        → ((d : Contribution) → is_pending (f d).status ≡ false)
        → p c ≡ false
        → IsDecided cs next
        → IsDecided (map_where p f cs) next
    map_where-IsDecided p f cs next same done other (given, (closed, row)) = (
      given,
      (
        All-map_where IsClosed p f cs (λ d e h. ground (arith, done d)) closed,
        first_match-map_where (is_contribution k) p f cs same ∙ rw (row, other) refl,
      ),
    )

    pub closed_row :
        (cs : List Contribution) (next : ℕ)
        → IsDecided cs next
        → is_contribution k c && not (is_pending c.status) ≡ true
    closed_row cs next (given, (closed, row)) = ground (
      arith,
      first_match_holds (is_contribution k) cs {x = c} row,
      All-first_match IsClosed (is_contribution k) cs closed row,
    )
