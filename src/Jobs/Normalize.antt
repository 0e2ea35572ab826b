-- ===== src/Jobs/Normalize.antt =====
-- The text of a job before it is cut into chunks (normalizeText and normalizePages of
-- backend/jobs/translate.go).
pub mod Contents
use lok_lingo.Prelude.{List, [], ◌∷◌, if◌then◌else◌}
use lok_lingo.Go.Text.{Text, codes, is_empty, trim_space, fields, join, split}

-- A paragraph or a page that is empty is left out.
abbrev pub cons_filled : Text → List Text → List Text
cons_filled p out = if is_empty p then out else p ∷ out

unfoldable pub normalize_paragraphs : List Text → List Text
normalize_paragraphs [] = []
normalize_paragraphs (p ∷ paragraphs) =
    cons_filled (join (fields p) (codes " ")) (normalize_paragraphs paragraphs)

unfoldable pub normalize_text : Text → Text
normalize_text s = join (normalize_paragraphs (split (trim_space s) (codes "\n\n"))) (codes "\n\n")

unfoldable pub normalize_pages : List Text → List Text
normalize_pages [] = []
normalize_pages (p ∷ raw) = cons_filled (normalize_text p) (normalize_pages raw)
