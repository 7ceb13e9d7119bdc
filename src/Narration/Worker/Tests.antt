-- ===== src/Narration/Worker/Tests.antt =====
-- A run over two chapters, with a synthesis that works and one that meets the quota.
use reading_wiki.Prelude.{
  ℕ, ◌≡◌, refl, String, true, Option, none, some, [], ◌∷◌, first_match, map_where, decimal,
}
use reading_wiki.Errors.{ok, pure}
use reading_wiki.Narration.Jobs.{Job, Options, generating}
use reading_wiki.Narration.Worker.{
  Operations, World, Answer, generated, quota, row, process, update, canceled_now,
}
use reading_wiki.Narration.Worker.Ends.{closed, process-closed}

abbrev options : Options
options = record { dedupe_key = none; text = "{\"chapters\": [1, 2]}" }

abbrev job : Job
job = record {
  id = 5;
  novel_id = 3;
  user_id = some 4;
  scope = "book";
  voice_id = "en-1";
  status = generating;
  stage = some "claimed";
  progress = none;
  options = options;
  error = none;
  created_at = 10;
  updated_at = 20;
}

abbrev world : World
world = record { jobs = record { jobs = job ∷ []; next_id = 6 }; now = 30 }

abbrev answers : Answer → Operations
answers a = record {
  User = ℕ;
  Number = ℕ;
  load_user = pure;
  spend_allowed = λ u. true;
  sidecar_available = pure true;
  acquire_generation = pure tt;
  generate_chapter = λ j u n. pure a;
  chapter_label = λ n. "1";
  chapters = λ o. 1 ∷ (2 ∷ []);
  describe = λ e. "RuntimeError: x";
}

abbrev progress_of_row : Option Job → Option String
progress_of_row none = none
progress_of_row (some j) = j.progress

narrated :
    progress_of_row (row 5 (process (answers generated) job world).1)
    ≡ some "{\"done\": 2, \"skipped\": 0, \"total\": 2}"
unfolding process first_match map_where canceled_now update decimal
narrated = refl

stopped :
    progress_of_row (row 5 (process (answers quota) job world).1)
    ≡ some "{\"done\": 0, \"skipped\": 0, \"total\": 2, \"stopped_reason\": \"quota\"}"
unfolding process first_match map_where canceled_now update decimal
stopped = refl

process-closed_example :
    ((process (answers quota) job world).0 ≡ ok tt)
    × (closed (row 5 (process (answers quota) job world).1) ≡ true)
process-closed_example = process-closed (answers quota) job world
