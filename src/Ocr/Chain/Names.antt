-- ===== src/Ocr/Chain/Names.antt =====
-- The names of the OCR providers and their order (backend/internal/services/ocr_provider_chain.go).
use lok_lingo.Prelude.{Bool, true, false, List, [], ◌∷◌, Option, none, some, if◌then◌else◌}
use lok_lingo.Go.Text.{Text, text_eq, codes, to_lower, trim_space}

pub data OcrName : Type 0 where
  paddle tesseract ollama unlimited : OcrName

abbrev pub name_text : OcrName → Text
name_text paddle = codes "paddle"
name_text tesseract = codes "tesseract"
name_text ollama = codes "ollama"
name_text unlimited = codes "unlimited"

abbrev pub same_ocr : OcrName → OcrName → Bool
same_ocr paddle paddle = true
same_ocr tesseract tesseract = true
same_ocr ollama ollama = true
same_ocr unlimited unlimited = true
same_ocr _ _ = false

-- normalizeOCRProvider; `none` is the empty string.
unfoldable pub normalize_ocr_provider : Text → Option OcrName
normalize_ocr_provider v =
    let name = to_lower (trim_space v) in
    if text_eq name (codes "paddle")
    then some paddle
    else if text_eq name (codes "tesseract")
    then some tesseract
    else if text_eq name (codes "ollama")
    then some ollama
    else if text_eq name (codes "unlimited")
    then some unlimited
    else none

unfoldable pub provider_order : OcrName → List OcrName
provider_order tesseract = tesseract ∷ paddle ∷ ollama ∷ unlimited ∷ []
provider_order ollama = ollama ∷ paddle ∷ tesseract ∷ unlimited ∷ []
provider_order unlimited = unlimited ∷ paddle ∷ tesseract ∷ ollama ∷ []
provider_order paddle = paddle ∷ tesseract ∷ ollama ∷ unlimited ∷ []

abbrev pub engine_for_provider : OcrName → Text
engine_for_provider tesseract = codes "paddle"
engine_for_provider n = name_text n
