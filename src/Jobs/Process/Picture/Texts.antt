-- ===== src/Jobs/Process/Picture/Texts.antt =====
-- The texts of the blocks of an image in Worker.process (backend/jobs/worker.go).
use lok_lingo.Prelude.{ℕ, zero, suc, List, [], ◌∷◌, ◌++◌, map, if◌then◌else◌}
use lok_lingo.Go.Text.{Text, codes, is_empty, trim_space, join}
use lok_lingo.Jobs.Chunks.{ChunkUnit}
use lok_lingo.Jobs.Process.State.{OcrTextBlock}
use lok_lingo.Jobs.Process.Document.{add_part, page_text}

-- The texts that are to be translated, each with the place of its block.
unfoldable pub segments : {P : Type 0} → ℕ → List (OcrTextBlock P) → List (ℕ × Text)
segments i [] = []
segments i (b ∷ bs) =
    let rest = segments (suc i) bs in
    if is_empty (trim_space b.text) then rest else (i, trim_space b.text) ∷ rest

abbrev pub segment_text : List (ℕ × Text) → List Text
segment_text = map (λ s. s.1)

abbrev pub as_text : List Text → Text
as_text texts = join texts (codes "\n")

-- The units of a segment, trimmed.
unfoldable pub add_trimmed : List ChunkUnit → List (List Text) → List (List Text)
add_trimmed [] pss = pss
add_trimmed (u ∷ us) pss = add_trimmed us (add_part u.page_index (trim_space u.text) pss)

-- translatedTexts[i] = text
abbrev pub set_text : ℕ → Text → List Text → List Text
set_text i t [] = []
set_text zero t (s ∷ ss) = t ∷ ss
set_text (suc i) t (s ∷ ss) = s ∷ set_text i t ss

-- The texts by block, and the sources and translations of the segments that have a translation.
pub record Assembled : Type 0 where
  pub translated_texts : List Text
  pub full_source : List Text
  pub full_target : List Text

unfoldable pub assemble : List (ℕ × Text) → List (List Text) → Assembled → Assembled
assemble ((i, source) ∷ segs) (parts ∷ pss) a =
    let t = page_text parts in
    assemble segs pss (
      if is_empty t then a else record {
        translated_texts = set_text i t a.translated_texts;
        full_source = a.full_source ++ source ∷ [];
        full_target = a.full_target ++ t ∷ [];
      })
assemble _ _ a = a
