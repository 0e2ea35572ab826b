-- ===== src/Examples/Normalize.antt =====
-- The normalisation of pages at concrete inputs (backend/jobs/translate.go).
use lok_lingo.Prelude.{◌≡◌, refl, List, [], ◌∷◌}
use lok_lingo.Go.Text.{
  Text, codes, is_space, trim_left, trim_right, trim_space, fields, fields_from, join, split,
  split_from, has_prefix,
}
use lok_lingo.Jobs.Normalize.{normalize_paragraphs, normalize_text, normalize_pages}
use lok_lingo.Go.Spaces.{words_of}
use lok_lingo.Jobs.Normalize.Contents.{words_of-normalize_pages}

abbrev scanned : List Text
scanned = codes " a  b\n\n\n\nc" ∷ codes " \n " ∷ []

normalized : normalize_pages scanned ≡ codes "a b\n\nc" ∷ []
unfolding normalize_pages normalize_text normalize_paragraphs split split_from has_prefix trim_space
    trim_left trim_right is_space fields fields_from join
normalized = refl

words_of-normalize_pages_example : words_of (normalize_pages scanned) ≡ words_of scanned
words_of-normalize_pages_example = words_of-normalize_pages scanned
