-- ===== src/Jobs/Process/Ends/Images.antt =====
-- The translation of an image ends (backend/jobs/worker.go).
use lok_lingo.Prelude.{ℕ, ◌<◌, refl, inl, inr, List, [], ◌∷◌, All, arith, Bool-cases, Option-cases}
use lok_lingo.Go.Text.{Text, is_empty}
use lok_lingo.Go.Failure.{Result, ok, err, Result-cases}
use lok_lingo.Jobs.Job.{Mode}
use lok_lingo.Jobs.Options.{Tuning}
use lok_lingo.Jobs.Chunks.{ChunkUnit, TextChunk, is_nil}
use lok_lingo.Jobs.Chunks.Filled.{HasUnits, build_text_chunks-HasUnits}
use lok_lingo.Jobs.Process.State.{Outside, Run, OcrTextBlock, emit, chunk_started, with_world}
use lok_lingo.Jobs.Process.Answers.{Holds, and_then-Holds, translate_chunk-returns}
use lok_lingo.Jobs.Process.Picture.{
  finish_gathered, is_ocr_only_mode, finish_rendered, recognise_image, finish_recognised_image,
  translate_image_chunk, translate_image_chunks, pass_through, finish_without_text, finish_image,
  conclude_image, translate_chunks_of, translate_segments, translate_blocks, process_image,
}
use lok_lingo.Jobs.Process.Picture.Texts.{Assembled, segment_text, segments}
use lok_lingo.Jobs.Process.Picture.Rendering.{render, announce_rendering}
use lok_lingo.Jobs.Process.Ends.{Ended, units_found}

module _ (o : Outside) (ctx : o.rt.Ctx) where
  pass_through-Ended : (s : Run o) → Ended o (pass_through o ctx s)
  unfolding pass_through
  pass_through-Ended s = ground arith

  finish_without_text-Ended : (mode : Mode) (s : Run o) → Ended o (finish_without_text o ctx mode s)
  unfolding finish_without_text
  finish_without_text-Ended mode s = elim (Bool-cases (is_ocr_only_mode mode)) [
    | inl e ↦ rw e refl
    | inr e ↦ rw e (pass_through-Ended _)
  ]

  finish_image-Ended :
      (mode : Mode) (blocks : List (Text × o.Place)) (segs : List (ℕ × Text)) (t : Assembled)
      (s : Run o)
      → Ended o (finish_image o ctx mode blocks segs t s)
  unfolding finish_image finish_rendered
  finish_image-Ended mode blocks segs t s = elim (Bool-cases (is_nil t.full_target)) [
    | inl e ↦ rw e (pass_through-Ended _)
    | inr e ↦
        rw e
          (elim (Result-cases
            (render o ctx mode (blocks, t.translated_texts) (announce_rendering o ctx mode s)).0) [
              | inl (path, f) ↦ rw f refl
              | inr (x, f) ↦ rw f refl
            ])
  ]

  finish_gathered-Ended :
      (mode : Mode) (blocks : List (Text × o.Place)) (segs : List (ℕ × Text))
      (q : Result (List (List Text)) × Run o)
      → Ended o (finish_gathered o ctx mode blocks segs q)
  finish_gathered-Ended mode blocks segs (err e, s) = refl
  finish_gathered-Ended mode blocks segs (ok parts, s) = finish_image-Ended mode blocks segs _ s

  conclude_image-Ended :
      (mode : Mode) (blocks : List (Text × o.Place)) (segs : List (ℕ × Text))
      (q : List (List ChunkUnit × Result (List ChunkUnit)) × Run o)
      → Ended o (conclude_image o ctx mode blocks segs q)
  conclude_image-Ended mode blocks segs (rs, s) = finish_gathered-Ended mode blocks segs _

  translate_image_chunk-Returns :
      (c : TextChunk) (s : Run o) → HasUnits c → Holds (λ _. Unit) (translate_image_chunk o ctx c s)
  unfolding translate_image_chunk
  translate_image_chunk-Returns c s h = elim (Option-cases (o.take_slot ctx s.inner.world).0) [
    | inr (e, k) ↦ rw (k, translate_image_chunk) tt
    | inl k ↦
        let s1 = emit o chunk_started (with_world o (o.take_slot ctx s.inner.world).1 s) in
        let (r, e) = translate_chunk-returns o ctx c.units s.job.source s.job.target s1.inner h in
        rw (k, translate_image_chunk) (rw e tt)
  ]

  translate_image_chunks-Returns :
      (cs : List TextChunk) (s : Run o)
      → All HasUnits cs
      → Holds (λ _. Unit) (translate_image_chunks o ctx cs s)
  unfolding translate_image_chunks
  translate_image_chunks-Returns [] s h = tt
  translate_image_chunks-Returns (c ∷ cs) s h =
      and_then-Holds (λ _. Unit) (λ _. Unit) (translate_image_chunk o ctx c s) _
        (translate_image_chunk-Returns c s h.0)
        (λ q _.
          and_then-Holds (λ _. Unit) (λ _. Unit) (translate_image_chunks o ctx cs q.1) _
            (translate_image_chunks-Returns cs q.1 h.1) (λ _ _. tt))

  translate_chunks_of-Ended :
      (mode : Mode) (cs : List TextChunk) (blocks : List (Text × o.Place)) (segs : List (ℕ × Text))
      (s : Run o)
      → All HasUnits cs
      → Holds (Ended o) (translate_chunks_of o ctx mode cs blocks segs s)
  unfolding translate_chunks_of
  translate_chunks_of-Ended mode [] blocks segs s h = pass_through-Ended _
  translate_chunks_of-Ended mode (c ∷ cs) blocks segs s h =
      and_then-Holds (λ _. Unit) (Ended o) (translate_image_chunks o ctx (c ∷ cs) _) _
        (translate_image_chunks-Returns (c ∷ cs) _ h)
        (λ q _. conclude_image-Ended mode blocks segs q)

  module _ (w : Tuning) (h : 0 < w.chunk_max_words) where
    translate_segments-Ended :
        (mode : Mode) (blocks : List (Text × o.Place)) (segs : List (ℕ × Text)) (s : Run o)
        → Holds (Ended o) (translate_segments o ctx w mode blocks segs s)
    unfolding translate_segments finish_recognised_image
    translate_segments-Ended mode blocks segs s = elim (Bool-cases (is_ocr_only_mode mode)) [
      | inl e ↦ rw e refl
      | inr e ↦
          let (us, f) = units_found o ctx (segment_text segs) w.chunk_max_words h in
          rw e (
            rw f (
              translate_chunks_of-Ended mode _ blocks segs _
                (build_text_chunks-HasUnits us w.chunk_min_words w.chunk_max_words)))
    ]

    translate_blocks-Ended :
        (mode : Mode) (blocks : List (OcrTextBlock o.Place)) (s : Run o)
        → Holds (Ended o) (translate_blocks o ctx w mode blocks s)
    unfolding translate_blocks
    translate_blocks-Ended mode blocks s = elim (Bool-cases (is_nil (segments 0 blocks))) [
      | inl e ↦ rw e (finish_without_text-Ended mode _)
      | inr e ↦ rw e (translate_segments-Ended mode _ (segments 0 blocks) _)
    ]

    pub process_image-Ended :
        (mode : Mode) (s : Run o) → Holds (Ended o) (process_image o ctx w mode s)
    unfolding process_image
    process_image-Ended mode s = elim (Bool-cases (is_empty s.job.file_path)) [
      | inl e ↦ rw e refl
      | inr e ↦ elim (Option-cases (o.ocr_client)) [
        | inl f ↦ rw (e, f) refl
        | inr (client, f) ↦ elim (Result-cases (recognise_image o ctx client mode s).0) [
          | inl (blocks, g) ↦ rw (e, f) (rw g (translate_blocks-Ended mode blocks _))
          | inr (x, g) ↦ rw (e, f) (rw g refl)
        ]
      ]
    ]
