-- ===== src/Jobs/Process/Picture.antt =====
-- The translation of an image in Worker.process (backend/jobs/worker.go).
pub mod Texts
pub mod Settings
pub mod Rendering
use lok_lingo.Prelude.{
  ℕ, zero, suc, ◌%◌, Bool, true, false, List, [], ◌∷◌, ◌++◌, map, none, some, ltb, if◌then◌else◌,
  length,
}
use lok_lingo.Prelude.Int.{ℤ, pos, negsuc}
use lok_lingo.Go.Text.{Text, codes, is_empty, trim_space, join}
use lok_lingo.Go.Failure.{Result, ok, err}
use lok_lingo.Overlay.Options.{OverlayOptions, default_overlay_options, default_studio_options}
use lok_lingo.Jobs.Job.{
  Job, Mode, overlay, layout, ocr_only, completed, processing, detecting_text, understanding_layout,
  detecting_languages, translating, rebuilding_layout, rendering, stage_completed,
}
use lok_lingo.Jobs.Chunks.{ChunkUnit, TextChunk, build_chunk_units, build_text_chunks, is_nil}
use lok_lingo.Jobs.Translate.{translate_chunk, Outcome, returns, panics, runs_out}
use lok_lingo.Jobs.Translate.Retry.{is_done}
use lok_lingo.Jobs.Options.{Tuning}
use lok_lingo.Jobs.Process.State.{
  Outside, Run, OcrClient, OcrTextBlock, ocr_started, ocr_completed, translation_started,
  chunk_started, chunk_completed, render_started, render_completed, export_started,
  export_completed, inc_degraded_mode, inc_render_fallback, inc_render_failure, and_then, with_job,
  with_world, emit, save, fail_with, hear, set_job_stage, warn_of_confidence, extract_blocks,
  ocr_options,
}
use lok_lingo.Jobs.Process.Document.{add_part, cache_translation, is_unrecoverable, page_text}
use lok_lingo.Jobs.Process.Picture.Texts.{
  segments, segment_text, as_text, add_trimmed, set_text, Assembled, assemble,
}
use lok_lingo.Jobs.Process.Picture.Settings.{
  layout_padding, apply_layout_mode_bbox_options, is_layout, with_quality, with_alpha, with_padding,
  overlay_options, render_options,
}
use lok_lingo.Jobs.Process.Picture.Rendering.{
  Drawing, draw, draw_with_fallback, render, announce_rendering,
}

abbrev pub is_ocr_only_mode : Mode → Bool
is_ocr_only_mode ocr_only = true
is_ocr_only_mode _ = false

abbrev pub with_output : Text → Text → Text → Job → Job
with_output source target path job = record job {
  text = source;
  translated_text = target;
  output_file_path = path;
}

module _ (o : Outside) (ctx : o.rt.Ctx) where
  -- The image is passed through as it is, under the texts that it has; or the job fails.
  unfoldable pub pass_through : Run o → Run o
  pass_through s =
      let (r, w) = o.write_image_passthrough_output s.job.file_path s.inner.world in
      elim r [
        | err e ↦ fail_with o (codes "image passthrough failed: " ++ e.message) (with_world o w s)
        | ok path ↦ save o (
            with_job o (λ j. record j { output_file_path = path; status = completed })
              (with_world o w s))
      ]

  -- Texts that stand for their own translation.
  abbrev pub with_own_text : List Text → Run o → Run o
  with_own_text texts =
      with_job o
        (λ j. record j { text = as_text texts; translated_text = as_text texts; error_msg = [] })

  unfoldable pub finish_without_text : Mode → Run o → Run o
  finish_without_text mode s =
      let s1 = with_own_text [] s in
      if is_ocr_only_mode mode
      then save o (with_job o (λ j. record j { output_file_path = []; status = completed }) s1)
      else pass_through s1

  unfoldable pub finish_recognised_image : List Text → Run o → Run o
  finish_recognised_image texts s = save o (
      with_job o
        (λ j. record j {
          text = as_text texts;
          translated_text = as_text texts;
          output_file_path = [];
          status = completed;
        })
        s)

  -- The work of one goroutine: the answer for a chunk.
  unfoldable pub translate_image_chunk :
      TextChunk → Run o → Outcome (Result (List ChunkUnit) × Run o)
  translate_image_chunk c s =
      let (refused, w) = o.take_slot ctx s.inner.world in
      elim refused [
        | some e ↦ returns (err e, with_world o w s)
        | none ↦
            let s1 = emit o chunk_started (with_world o w s) in
            let (answer, inner) =
              translate_chunk o.rt (length c.units) c.units ctx s.job.source s.job.target
                s1.inner in
            let s2 = hear o (emit o chunk_completed (record s1 { inner = inner })) in
            elim answer [
              | returns r ↦ returns (r, with_world o (o.free_slot s2.inner.world) s2)
              | panics ↦ panics
              | runs_out ↦ runs_out
            ]
      ]

  unfoldable pub translate_image_chunks :
      List TextChunk → Run o → Outcome (List (List ChunkUnit × Result (List ChunkUnit)) × Run o)
  translate_image_chunks [] s = returns ([], s)
  translate_image_chunks (c ∷ cs) s =
      and_then (translate_image_chunk c s)
        (λ q. and_then (translate_image_chunks cs q.1) (λ p. returns ((c.units, q.0) ∷ p.0, p.1)))

  -- The parts of each segment. The first error that cannot be passed over ends it; for any other the
  -- chunk's own units stand in.
  unfoldable pub gather_segments :
      Bool
      → List (List ChunkUnit × Result (List ChunkUnit))
      → List (List Text)
      → Run o
      → Result (List (List Text)) × Run o
  gather_segments done [] parts s = (ok parts, s)
  gather_segments done ((us, ok translated) ∷ rs) parts s =
      gather_segments done rs (add_trimmed translated parts) s
  gather_segments done ((us, err e) ∷ rs) parts s = elim (is_unrecoverable o ctx done e) [
    | true ↦ (err e, s)
    | false ↦ gather_segments done rs (add_trimmed us parts) (emit o inc_degraded_mode s)
  ]

  abbrev pub with_completion : Job → Job
  with_completion job = record job {
    status = completed;
    stage = stage_completed;
    stage_message = codes "Translation complete";
    stage_progress = 100;
  }

  unfoldable pub finish_rendered : Assembled → Text → Run o → Run o
  finish_rendered a path s = save o (
      with_job o with_completion (
        cache_translation o ctx (
          emit o export_completed (
            emit o export_started (
              with_job o (with_output (as_text a.full_source) (as_text a.full_target) path)
                (emit o render_completed s))))))

  -- What follows when the segments have their translations.
  unfoldable pub finish_image :
      Mode → List (Text × o.Place) → List (ℕ × Text) → Assembled → Run o → Run o
  finish_image mode blocks segs a s =
      if is_nil a.full_target
      then pass_through (with_own_text (segment_text segs) s)
      else (let (r, s1) =
            render o ctx mode (blocks, a.translated_texts) (announce_rendering o ctx mode s) in
          elim r [ err e ↦ fail_with o e.message s1 | ok path ↦ finish_rendered a path s1 ])

  abbrev pub nothing_assembled : List (Text × o.Place) → Assembled
  nothing_assembled blocks = record {
    translated_texts = map (λ _. []) blocks;
    full_source = [];
    full_target = [];
  }

  abbrev pub finish_gathered :
      Mode → List (Text × o.Place) → List (ℕ × Text) → Result (List (List Text)) × Run o → Run o
  finish_gathered mode blocks segs (err e, s) = fail_with o e.message s
  finish_gathered mode blocks segs (ok parts, s) =
      finish_image mode blocks segs (assemble segs parts (nothing_assembled blocks)) s

  abbrev pub conclude_image :
      Mode
      → List (Text × o.Place)
      → List (ℕ × Text)
      → List (List ChunkUnit × Result (List ChunkUnit)) × Run o
      → Run o
  conclude_image mode blocks segs (rs, s) =
      finish_gathered mode blocks segs
        (gather_segments (is_done o.rt ctx s.inner.world) rs (map (λ _. []) segs) s)

  unfoldable pub translate_chunks_of :
      Mode → List TextChunk → List (Text × o.Place) → List (ℕ × Text) → Run o → Outcome (Run o)
  translate_chunks_of mode [] blocks segs s =
      returns (pass_through (with_own_text (segment_text segs) s))
  translate_chunks_of mode (c ∷ cs) blocks segs s =
      and_then
        (translate_image_chunks (c ∷ cs) (
          emit o translation_started
            (set_job_stage o translating (codes "Translating image text…") 30 s)))
        (λ q. returns (conclude_image mode blocks segs q))

  -- An image of which some text is found.
  unfoldable pub translate_segments :
      Tuning → Mode → List (Text × o.Place) → List (ℕ × Text) → Run o → Outcome (Run o)
  translate_segments w mode blocks segs s =
      let s1 =
        set_job_stage o detecting_languages (codes "Detecting languages and script direction…") 24
          s in
      if is_ocr_only_mode mode
      then returns (finish_recognised_image (segment_text segs) s1)
      else elim (build_chunk_units (segment_text segs) w.chunk_max_words) [
        | none ↦ runs_out
        | some units ↦
            translate_chunks_of mode (build_text_chunks units w.chunk_min_words w.chunk_max_words)
              blocks segs s1
      ]

  abbrev pub to_render : List (OcrTextBlock o.Place) → List (Text × o.Place)
  to_render = map (λ b. (b.text, b.place))

  abbrev pub image_advice : Text
  image_advice =
      codes "). Translation continued in graceful-degradation mode; "
      ++ codes "verify critical text manually."

  unfoldable pub translate_blocks :
      Tuning → Mode → List (OcrTextBlock o.Place) → Run o → Outcome (Run o)
  translate_blocks w mode blocks s =
      let s1 = set_job_stage o understanding_layout (codes "Understanding layout geometry…") 14 (
        warn_of_confidence o image_advice (
          with_job o
            (λ j. record j {
              ocr_confidence = o.average_confidence (map (λ b. b.confidence) blocks);
            })
            s)) in
      let segs = segments 0 blocks in
      if is_nil segs
      then returns (finish_without_text mode s1)
      else translate_segments w mode (to_render blocks) segs s1

  unfoldable pub recognise_image :
      OcrClient o.Place o.rt.World → Mode → Run o → Result (List (OcrTextBlock o.Place)) × Run o
  recognise_image client mode s =
      let s1 = emit o ocr_started (
        set_job_stage o detecting_text (codes "Detecting text in image…") 5
          (with_job o (λ j. record j { status = processing }) s)) in
      let (r, w) =
        extract_blocks o client s.job.file_path s.job.lang (ocr_options mode s.job.ocr_engine)
          s1.inner.world in
      (r, emit o ocr_completed (with_world o w s1))

  unfoldable pub process_image : Tuning → Mode → Run o → Outcome (Run o)
  process_image w mode s =
      if is_empty s.job.file_path
      then returns (fail_with o (codes "file_path is required for translate_image jobs") s)
      else elim (o.ocr_client) [
        | none ↦ returns (fail_with o (codes "ocr client is required for translate_image jobs") s)
        | some client ↦
            let (r, s1) = recognise_image client mode s in
            elim r [
              | err e ↦ returns (fail_with o (codes "image OCR failed: " ++ e.message) s1)
              | ok blocks ↦ translate_blocks w mode blocks s1
            ]
      ]
