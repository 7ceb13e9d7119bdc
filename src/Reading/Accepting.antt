-- ===== src/Reading/Accepting.antt =====
-- What becomes of a contribution that an editor accepts.
use reading_wiki.Identity.Principal.{Principal}
use reading_wiki.Reading.Overlays.{update_base_content}
use reading_wiki.Reading.Overlays
