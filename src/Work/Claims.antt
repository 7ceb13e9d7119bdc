-- ===== src/Work/Claims.antt =====
-- `claim_next` of work/adapters/outbound/claims.py: one UPDATE over a locked sub-select, so a claim
-- is one step.
use reading_wiki.Prelude.{
  ℕ, ◌+◌, String, Bool, true, false, not, ◌&&◌, Option, none, some, List, [], ◌∷◌, leb,
  if◌then◌else◌, is_some, oldest_where,
}
use reading_wiki.Errors.{pure, gets, on_option, ◌>>=◌}
use reading_wiki.Work.Job.{
  Job, Kind, Status, Stage, Backend, is_queued, same_backend, same_kind, codex_illustrate, scrape,
  codex_build, translate, agy_smoke, openai_codex_smoke,
}
use reading_wiki.Work.Store.{Db, Work, update_returning}
use reading_wiki.Work.Transitions.{always}

-- `not_before IS NULL OR not_before <= now()`
abbrev pub may_start : ℕ → Option ℕ → Bool
may_start now none = true
may_start now (some t) = leb t now

abbrev pub all_kinds : List Kind
all_kinds =
    codex_illustrate ∷ scrape ∷ codex_build ∷ translate ∷ agy_smoke ∷ openai_codex_smoke ∷ []

unfoldable pub has_kind : List Kind → Kind → Bool
has_kind [] k = false
has_kind (x ∷ xs) k = if same_kind x k then true else has_kind xs k

-- `kinds or KINDS`: None and the empty list mean every kind.
abbrev pub allowed_kinds : Option (List Kind) → List Kind
allowed_kinds none = all_kinds
allowed_kinds (some []) = all_kinds
allowed_kinds (some (k ∷ ks)) = k ∷ ks

unfoldable pub is_claimable : Backend → List Kind → ℕ → Job → Bool
unfolding has_kind
is_claimable b kinds now j =
    is_queued j.status
    && (same_backend j.execution_backend b
        && (has_kind kinds j.kind
            && (may_start now j.not_before && not (is_some j.cancel_requested_at))))

unfoldable pub claim : String → ℕ → Job → Job
claim worker now j = record j {
  status = Status.running;
  stage = Stage.claimed;
  attempts = j.attempts + 1;
  claim_token = some worker;
  claimed_at = some now;
  updated_at = now;
}

abbrev pub row_updated_at : Job → ℕ
row_updated_at j = j.updated_at

unfoldable pub next_claimable : Backend → List Kind → Db → Option Job
unfolding is_claimable
next_claimable b kinds s = oldest_where (is_claimable b kinds s.now) row_updated_at s.jobs

-- The UPDATE takes the row whose id the sub-select gave.
unfoldable pub claim_next : Backend → String → Option (List Kind) → Work (Option Job)
claim_next b worker kinds = do
  chosen ← gets (next_claimable b (allowed_kinds kinds))
  on_option chosen (pure none) (λ j. update_returning j.id always (claim worker))
