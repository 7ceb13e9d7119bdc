-- ===== src/Reading/Sequences.antt =====
-- Sequences of edits.
use reading_wiki.Prelude.{ℕ, String, Option, List, [], ◌∷◌}
use reading_wiki.Errors.{Result}
use reading_wiki.Identity.Principal.{Principal}
use reading_wiki.Catalog.Novels.{Novel}
use reading_wiki.Reading.Tables.{ReadingDb}
use reading_wiki.Reading.Edits.{
  edit_base_content, save_overlay, delete_overlay, resolve_overlay, contribute, accept_contribution,
  reject_contribution,
}

-- The edits of readers and editors.
pub data Edit : Type 0 where
  edit_base save : ℕ → ℕ → Option String → Edit
  drop offer : ℕ → ℕ → Edit
  resolve : ℕ → ℕ → Option String → Option String → Edit
  accept : ℕ → ℕ → Option String → Edit
  reject : ℕ → ℕ → Edit

-- Who edits, and what the catalog answers meanwhile.
pub record Caller : Type 0 where
  pub principal : Principal
  pub readable : ℕ → Option Principal → Result Novel
  pub editable : ℕ → Option Principal → Result Novel

-- The state after the edit, whether it returned or raised.
unfoldable pub apply : Caller × Edit → ReadingDb → ReadingDb
apply (w, edit_base i number content) s =
    (edit_base_content w.readable w.editable i number content w.principal s).1
apply (w, save i number content) s =
    (save_overlay w.readable w.editable i number content w.principal s).1
apply (w, drop i number) s = (delete_overlay w.readable w.editable i number w.principal s).1
apply (w, offer i number) s = (contribute w.readable w.editable i number w.principal s).1
apply (w, resolve i number choice content) s =
    (resolve_overlay w.readable w.editable i number choice content w.principal s).1
apply (w, accept i k content) s =
    (accept_contribution w.readable w.editable i k content w.principal s).1
apply (w, reject i k) s = (reject_contribution w.readable w.editable i k w.principal s).1

unfoldable pub apply_all : List (Caller × Edit) → ReadingDb → ReadingDb
unfolding apply
apply_all [] s = s
apply_all (e ∷ edits) s = apply_all edits (apply e s)
