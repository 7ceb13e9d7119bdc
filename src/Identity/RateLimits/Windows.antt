-- ===== src/Identity/RateLimits/Windows.antt =====
-- How many charges one window grants.
use reading_wiki.Prelude.{
  ℕ, ◌+◌, ◌-◌, ◌≤◌, ◌<◌, ◌≡◌, refl, String, Bool, true, false, not, ◌&&◌, ◌||◌, Option, none, some,
  List, [], ◌∷◌, ◌==◌, leb, ltb, arith, if◌then◌else◌, str_eq, eq_iff, eq_refl, ==_iff, subst, All,
  Bool-cases, inl, inr,
}
use reading_wiki.Errors.{when◌then◌else◌}
use reading_wiki.Identity.RateLimits.{
  Bucket, Buckets, RateLimit, is_full, ensure_allowed, counted, consume, clear, unless_expired,
  cleanup, Call, charge, check, forget, sweep, call, is_ok, charges, grants,
}

not_zero : (n : ℕ) → 0 < n → n == 0 ≡ false
not_zero n h = ground arith

module _ (key : String) (limit window start : ℕ) where
  abbrev pub during : ℕ → Bool
  during now = leb start now && ltb now (start + window)

  -- A call within the window, which charges the key at this rate, and does not clear it.
  abbrev pub in_window : Call → Bool
  in_window (charge now k rate) =
      during now && (not (str_eq key k) || (rate.limit == limit && rate.window_seconds == window))
  in_window (check now k rate) = during now
  in_window (forget k) = not (str_eq key k)
  in_window (sweep now) = during now

  abbrev pub IsInWindow : Call → Type 0
  IsInWindow c = in_window c ≡ true

  -- The row is of a window that was over at the start, or of one that lasts to the end of this.
  abbrev fits : Option Bucket → Bool
  fits none = true
  fits (some b) = leb b.reset_at start || leb (start + window) b.reset_at

  -- What the row allows still.
  abbrev budget : Option Bucket → ℕ
  budget none = limit
  budget (some b) = if leb b.reset_at start then limit else limit - b.count

  abbrev granted : Call → Buckets → ℕ
  granted c t = if charges key c && is_ok (call c t).0 then 1 else 0

  abbrev IsStep : Call → Buckets → Type 0
  IsStep c t =
      (fits ((call c t).1 key) ≡ true) × (granted c t + budget ((call c t).1 key) ≤ budget (t key))

  counted_step :
      (now window' : ℕ) (row : Option Bucket)
      → 0 < limit
      → during now ≡ true
      → window' ≡ window
      → fits row ≡ true
      → (fits (some (counted now window' row)) ≡ true)
        × ((if ltb limit (counted now window' row).count then 0 else 1)
              + budget (some (counted now window' row))
            ≤ budget row)
  counted_step now window' none positive w e f = ground (arith, positive, w, e)
  counted_step now window' (some b) positive w e f = ground (arith, positive, w, e, f)

  charge_own :
      (now : ℕ) (rate : RateLimit) (t : Buckets)
      → 0 < limit
      → during now ≡ true
      → rate.limit ≡ limit
      → rate.window_seconds ≡ window
      → fits (t key) ≡ true
      → IsStep (charge now key rate) t
  unfolding call consume
  charge_own now rate t positive w el ew f =
      let (g, h) = counted_step now rate.window_seconds (t key) positive w ew f in
      elim (Bool-cases (ltb limit (counted now rate.window_seconds (t key)).count)) [
        | inl over ↦
            rw (eq_refl key, el, not_zero limit positive, over)
              (rw (eq_refl key) (g, ground (arith, h, over)))
        | inr below ↦
            rw (eq_refl key, el, not_zero limit positive, below)
              (rw (eq_refl key) (g, ground (arith, h, below)))
      ]

  charge_other :
      (now : ℕ) (k : String) (rate : RateLimit) (t : Buckets)
      → str_eq key k ≡ false
      → fits (t key) ≡ true
      → IsStep (charge now k rate) t
  unfolding call consume
  charge_other now k rate t apart f = elim (Bool-cases (rate.limit == 0)) [
    | inl off ↦ rw (off, apart) (f, ground arith)
    | inr on ↦ elim (Bool-cases (ltb rate.limit (counted now rate.window_seconds (t k)).count)) [
      | inl over ↦ rw (on, apart, over) (rw apart (f, ground arith))
      | inr below ↦ rw (on, apart, below) (rw apart (f, ground arith))
    ]
  ]

  check-IsStep :
      (now : ℕ) (k : String) (rate : RateLimit) (t : Buckets)
      → fits (t key) ≡ true
      → IsStep (check now k rate) t
  unfolding call ensure_allowed
  check-IsStep now k rate t f = elim (Bool-cases (rate.limit == 0)) [
    | inl e ↦ rw e (f, omega arith)
    | inr e ↦ elim (Bool-cases (is_full now rate.limit (t k))) [
      | inl g ↦ rw (e, g) (f, omega arith)
      | inr g ↦ rw (e, g) (f, omega arith)
    ]
  ]

  forget-IsStep :
      (k : String) (t : Buckets)
      → in_window (forget k) ≡ true
      → fits (t key) ≡ true
      → IsStep (forget k) t
  unfolding call clear
  forget-IsStep k t w f = ground (arith, w, f)

  swept :
      (now : ℕ) (row : Option Bucket)
      → in_window (sweep now) ≡ true
      → fits row ≡ true
      → (fits (unless_expired now row) ≡ true) × (budget (unless_expired now row) ≤ budget row)
  swept now none w f = (refl, omega arith)
  swept now (some b) w f = ground (arith, w, f)

  sweep-IsStep :
      (now : ℕ) (t : Buckets)
      → in_window (sweep now) ≡ true
      → fits (t key) ≡ true
      → IsStep (sweep now) t
  unfolding call cleanup
  sweep-IsStep now t w f = let (g, h) = swept now (t key) w f in (g, omega (arith, h))

  charge-IsStep :
      (now : ℕ) (k : String) (rate : RateLimit) (t : Buckets)
      → 0 < limit
      → in_window (charge now k rate) ≡ true
      → fits (t key) ≡ true
      → IsStep (charge now k rate) t
  charge-IsStep now k rate t positive w f = elim (Bool-cases (str_eq key k)) [
    | inr apart ↦ charge_other now k rate t apart f
    | inl own ↦
        subst (λ k'. IsStep (charge now k' rate) t) ((eq_iff key k).0 own)
          (charge_own now rate t positive (ground (arith, w))
            ((==_iff rate.limit limit).0 (ground (arith, w, own)))
            ((==_iff rate.window_seconds window).0 (ground (arith, w, own))) f)
  ]

  call-IsStep :
      (c : Call) (t : Buckets) → 0 < limit → in_window c ≡ true → fits (t key) ≡ true → IsStep c t
  call-IsStep (charge now k rate) t positive w f = charge-IsStep now k rate t positive w f
  call-IsStep (check now k rate) t positive w f = check-IsStep now k rate t f
  call-IsStep (forget k) t positive w f = forget-IsStep k t w f
  call-IsStep (sweep now) t positive w f = sweep-IsStep now t w f

  grants_le :
      (cs : List Call) (t : Buckets)
      → 0 < limit
      → All IsInWindow cs
      → fits (t key) ≡ true
      → grants key cs t ≤ budget (t key)
  unfolding grants
  grants_le [] t positive w f = omega arith
  grants_le (c ∷ cs) t positive w f =
      let (g, h) = call-IsStep c t positive w.0 f in
      ground (arith, h, grants_le cs (call c t).1 positive w.1 g)

  fits_fresh :
      (row : Option Bucket)
      → unless_expired start row ≡ none
      → (fits row ≡ true) × (budget row ≤ limit)
  fits_fresh none h = (refl, omega arith)
  fits_fresh (some b) h = ground (arith, h)

  -- Where the limit is above 0 and no window of the key is open at the start: of the calls within
  -- the window that follows, in any order, with any calls of other keys between them, of which the
  -- charges of the key all have this limit and this length of the window, and none clears the key,
  -- at most as many charges of the key are granted as the limit says.
  pub grants-limit :
      (cs : List Call) (t : Buckets)
      → 0 < limit
      → All IsInWindow cs
      → unless_expired start (t key) ≡ none
      → grants key cs t ≤ limit
  grants-limit cs t positive w fresh =
      let (f, h) = fits_fresh (t key) fresh in omega (arith, h, grants_le cs t positive w f)
