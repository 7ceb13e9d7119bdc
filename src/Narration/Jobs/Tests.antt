-- ===== src/Narration/Jobs/Tests.antt =====
-- A canceled job whose worker still writes, and one that waits.
use reading_wiki.Prelude.{ℕ, refl, none, some, List, [], ◌∷◌}
use reading_wiki.Narration.Jobs.{Status, queued, canceled, done, Options, Job, JobDb, Fields}
use reading_wiki.Narration.Jobs.Terminal.{
  AllHave, Call, update, cancel, requeue, claim_one, call_all, call_all-AllHave,
}

abbrev options : Options
options = record { dedupe_key = none; text = "{}" }

abbrev job : ℕ → Status → Job
job i status = record {
  id = i;
  novel_id = 1;
  user_id = some 5;
  scope = "book";
  voice_id = "v";
  status = status;
  stage = none;
  progress = some "{}";
  options = options;
  error = none;
  created_at = i;
  updated_at = i;
}

abbrev db : JobDb
db = record { jobs = job 1 canceled ∷ (job 2 queued ∷ []); next_id = 3 }

abbrev late : Fields
late = record {
  status = some done;
  stage = some (some "done");
  progress = none;
  error = none;
  options = none;
}

abbrev calls : List Call
calls = update 7 1 late ∷ (claim_one 8 ∷ (requeue ∷ (cancel 9 1 ∷ (claim_one 10 ∷ []))))

call_all-AllHave_example : AllHave 1 canceled (call_all calls db)
call_all-AllHave_example = call_all-AllHave 1 canceled refl calls db (refl, (refl, (refl, tt)))
