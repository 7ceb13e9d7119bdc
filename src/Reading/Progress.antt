-- ===== src/Reading/Progress.antt =====
-- `ReadingService` of reading/application/services.py, and what `get_chapter` of
-- reading/application/migration.py does to the progress. `readable` stands for
-- `require_readable` of the catalog, as it answers while the call runs.
use reading_wiki.Prelude.{
  ℕ, String, Bool, true, false, not, ◌&&◌, Option, none, some, ltb, leb, ◌==◌, if◌then◌else◌,
  get_or,
}
use reading_wiki.Errors.{
  Result, pure, lift, raise, raise_if, on_option, ◌>>=◌, ◌>>◌, not_found, validation_failed,
}
use reading_wiki.Identity.Principal.{Principal}
use reading_wiki.Reading.Tables.{
  Reading, chapter_exists, chapter_span, write_progress, record_opening, trusted_ceiling,
  insert_bookmark, erase_bookmark,
}

-- A float that a caller sends. A finite one stands for its place in the order.
pub data Float : Type 0 where
  nan neg_inf pos_inf : Float
  at : ℕ → Float

-- `<` and `==`; not a number compares to nothing.
abbrev pub less : Float → Float → Bool
less nan b = false
less neg_inf neg_inf = false
less neg_inf nan = false
less neg_inf b = true
less pos_inf b = false
less (at m) (at n) = ltb m n
less (at m) pos_inf = true
less (at m) b = false

abbrev pub equal : Float → Float → Bool
equal neg_inf neg_inf = true
equal pos_inf pos_inf = true
equal (at m) (at n) = m == n
equal _ _ = false

-- `min(a, b)` and `max(a, b)`, which keep `a` unless `b` is before it, or after it.
abbrev pub lower_of : Float → Float → Float
lower_of a b = if less b a then b else a

abbrev pub upper_of : Float → Float → Float
upper_of a b = if less a b then b else a

abbrev pub place : Float → Option ℕ
place (at n) = some n
place _ = none

-- Without the novel, which is what the catalog answers.
pub record EffectiveCeiling : Type 0 where
  pub chapter_count : ℕ
  pub min_chapter : ℕ
  pub max_chapter : ℕ
  pub requested_ceiling : Option Float
  pub allowed_ceiling : Float
  pub effective_ceiling : Float
  pub clamped : Bool

abbrev pub user_of : Principal → ℕ
user_of p = p.user_id

-- `trusted`, where nobody is logged in or nothing was opened.
abbrev pub trusted_of : ℕ → Option Principal → Reading (Option ℕ)
trusted_of i none = pure none
trusted_of i (some p) = trusted_ceiling i p.user_id

abbrev pub allow : ℕ → ℕ → Option ℕ → Float
allow minimum maximum progress =
    upper_of (at minimum) (lower_of (at maximum) (at (get_or progress minimum)))

abbrev pub effective : ℕ → Float → Option Float → Float
effective minimum allowed none = allowed
effective minimum allowed (some requested) = upper_of (at minimum) (lower_of requested allowed)

abbrev pub is_clamped : Float → Option Float → Bool
is_clamped effective none = false
is_clamped effective (some requested) = not (equal effective requested)

abbrev pub ceiling : ℕ → ℕ → ℕ → Option ℕ → Option Float → EffectiveCeiling
ceiling count minimum maximum progress requested =
    let allowed = allow minimum maximum progress in
    record {
      chapter_count = count;
      min_chapter = minimum;
      max_chapter = maximum;
      requested_ceiling = requested;
      allowed_ceiling = allowed;
      effective_ceiling = effective minimum allowed requested;
      clamped = is_clamped (effective minimum allowed requested) requested;
    }

module _ {N : Type 0} (readable : ℕ → Option Principal → Result N) where
  unfoldable pub effective_ceiling : ℕ → Option Principal → Option Float → Reading EffectiveCeiling
  unfolding ◌>>=◌ chapter_span trusted_ceiling
  effective_ceiling i p requested = do
    _ ← lift (readable i p)
    (count, (minimum, maximum)) ← chapter_span i
    raise_if (count == 0) not_found
    on_option minimum (raise not_found) (λ low.
        on_option maximum (raise not_found)
          (λ high. do progress ← trusted_of i p; pure (ceiling count low high progress requested)))

  -- `start` and `finish` are the places of 0 and 1.
  unfoldable pub set_progress : ℕ → ℕ → ℕ → Principal → Float → Float → Reading (Unit {0})
  unfolding ◌>>=◌ chapter_exists write_progress
  set_progress start finish i p chapter scroll = do
    _ ← lift (readable i (some p))
    on_option (place chapter) (raise validation_failed) (λ number.
        on_option (place scroll) (raise validation_failed) (λ pct. do
          raise_if (not (leb start pct && leb pct finish)) validation_failed
          there ← chapter_exists i number
          raise_if (not there) not_found
          write_progress i p.user_id number pct))

  unfoldable pub add_bookmark : ℕ → Principal → Float → Option String → Reading ℕ
  unfolding ◌>>=◌ chapter_exists insert_bookmark
  add_bookmark i p chapter note = do
    _ ← lift (readable i (some p))
    on_option (place chapter) (raise validation_failed) (λ number. do
      there ← chapter_exists i number
      raise_if (not there) not_found
      insert_bookmark i p.user_id number note)

  unfoldable pub delete_bookmark : ℕ → Principal → ℕ → Reading (Unit {0})
  unfolding ◌>>=◌ erase_bookmark
  delete_bookmark i p k = do _ ← lift (readable i (some p)); erase_bookmark i p.user_id k

  abbrev pub record_for : ℕ → ℕ → Option Principal → ℕ → Reading (Unit {0})
  record_for start i none number = pure tt
  record_for start i (some p) number = record_opening start i p.user_id number

  -- `get_chapter`, in so far as it opens the chapter.
  unfoldable pub open_chapter : ℕ → ℕ → Float → Option Principal → Reading (Unit {0})
  unfolding ◌>>=◌ chapter_exists record_opening
  open_chapter start i chapter p = do
    _ ← lift (readable i p)
    on_option (place chapter) (raise not_found) (λ number. do
      there ← chapter_exists i number
      raise_if (not there) not_found
      record_for start i p number)
