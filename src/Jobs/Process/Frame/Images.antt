-- ===== src/Jobs/Process/Frame/Images.antt =====
-- What the translation of an image leaves of a job as it was (backend/jobs/worker.go).
use lok_lingo.Prelude.{
  ℕ, ◌∙◌, inl, inr, Bool, List, [], ◌∷◌, arith, Bool-cases, Option-cases, length,
}
use lok_lingo.Go.Text.{Text, codes, is_empty}
use lok_lingo.Go.Failure.{Result, ok, err, Result-cases}
use lok_lingo.Jobs.Job.{Job, Stage, Mode, overlay, rendering}
use lok_lingo.Jobs.Options.{Tuning}
use lok_lingo.Jobs.Chunks.{ChunkUnit, TextChunk, build_chunk_units, is_nil}
use lok_lingo.Jobs.Translate.{translate_chunk}
use lok_lingo.Jobs.Process.State.{
  Outside, Run, OcrTextBlock, emit, with_world, chunk_started, chunk_completed, inc_degraded_mode,
  inc_render_fallback, inc_render_failure, set_job_stage, hear, warn_of_confidence,
}
use lok_lingo.Jobs.Process.Document.{is_unrecoverable}
use lok_lingo.Jobs.Process.Picture.{
  pass_through, finish_without_text, finish_recognised_image, translate_image_chunk,
  translate_image_chunks, gather_segments, finish_rendered, finish_image, finish_gathered,
  translate_chunks_of, translate_segments, translate_blocks, recognise_image, process_image,
  is_ocr_only_mode,
}
use lok_lingo.Jobs.Process.Picture.Rendering.{
  draw_with_fallback, render, announce_rendering, Drawing,
}
use lok_lingo.Jobs.Process.Picture.Texts.{Assembled, segments, segment_text}
use lok_lingo.Jobs.Process.Picture.Settings.{is_layout}
use lok_lingo.Jobs.Process.Keeps.{Leads, and_then-Leads, answered-Leads}
use lok_lingo.Jobs.Process.Frame.{
  Stays, set_job_stage-request_of, hear-request_of, warn_of_confidence-request_of,
}

module _ (o : Outside) (j : Job) where
  set_job_stage-Stays :
      (st : Stage) (message : Text) (n : ℕ) (s : Run o)
      → Stays o j s
      → Stays o j (set_job_stage o st message n s)
  set_job_stage-Stays st message n s h = set_job_stage-request_of o s st message n ∙ h

  hear-Stays : (s : Run o) → Stays o j s → Stays o j (hear o s)
  hear-Stays s h = hear-request_of o s ∙ h

  warn_of_confidence-Stays :
      (advice : Text) (s : Run o) → Stays o j s → Stays o j (warn_of_confidence o advice s)
  warn_of_confidence-Stays advice s h = warn_of_confidence-request_of o s advice ∙ h

  module _ (ctx : o.rt.Ctx) where
    pass_through-Stays : (s : Run o) → Stays o j s → Stays o j (pass_through o ctx s)
    unfolding pass_through
    pass_through-Stays s h = ground (arith, h)

    finish_without_text-Stays :
        (mode : Mode) (s : Run o) → Stays o j s → Stays o j (finish_without_text o ctx mode s)
    unfolding finish_without_text
    finish_without_text-Stays mode s h = elim (Bool-cases (is_ocr_only_mode mode)) [
      | inl e ↦ rw e h
      | inr e ↦ rw e (pass_through-Stays _ h)
    ]

    translate_image_chunk-Stays :
        (c : TextChunk) (s : Run o)
        → Stays o j s
        → Leads (λ q. Stays o j q.1) (translate_image_chunk o ctx c s)
    unfolding translate_image_chunk
    translate_image_chunk-Stays c s h = elim (Option-cases (o.take_slot ctx s.inner.world).0) [
      | inr (e, k) ↦ rw (k, translate_image_chunk) h
      | inl k ↦
          let s1 = emit o chunk_started (with_world o (o.take_slot ctx s.inner.world).1 s) in
          let (answer, inner) =
            translate_chunk o.rt (length c.units) c.units ctx s.job.source s.job.target s1.inner in
          rw (k, translate_image_chunk)
            (answered-Leads (λ (q : Result (List ChunkUnit) × Run o). Stays o j q.1) answer _
              (λ r. hear-Stays (emit o chunk_completed (record s1 { inner = inner })) h))
    ]

    translate_image_chunks-Stays :
        (cs : List TextChunk) (s : Run o)
        → Stays o j s
        → Leads (λ q. Stays o j q.1) (translate_image_chunks o ctx cs s)
    unfolding translate_image_chunks
    translate_image_chunks-Stays [] s h = h
    translate_image_chunks-Stays (c ∷ cs) s h =
        and_then-Leads (λ q. Stays o j q.1) (λ q. Stays o j q.1) _ _
          (translate_image_chunk-Stays c s h)
          (λ q k.
            and_then-Leads (λ q. Stays o j q.1) (λ q. Stays o j q.1) _ _
              (translate_image_chunks-Stays cs q.1 k) (λ p m. m))

    gather_segments-Stays :
        (done : Bool) (rs : List (List ChunkUnit × Result (List ChunkUnit)))
        (parts : List (List Text)) (s : Run o)
        → Stays o j s
        → Stays o j (gather_segments o ctx done rs parts s).1
    unfolding gather_segments
    gather_segments-Stays done [] parts s h = h
    gather_segments-Stays done ((us, ok vs) ∷ rs) parts s h = gather_segments-Stays done rs _ s h
    gather_segments-Stays done ((us, err e) ∷ rs) parts s h =
        elim (Bool-cases (is_unrecoverable o ctx done e)) [
          | inl f ↦ rw (f, gather_segments) h
          | inr f ↦
              rw (f, gather_segments)
                (gather_segments-Stays done rs _ (emit o inc_degraded_mode s) h)
        ]

    draw_with_fallback-Stays :
        (mode : Mode) (d : Drawing o ctx) (s : Run o)
        → Stays o j s
        → Stays o j (draw_with_fallback o ctx mode d s).1
    unfolding draw_with_fallback
    draw_with_fallback-Stays mode d s h = ground (arith, h)

    render-Stays :
        (mode : Mode) (d : Drawing o ctx) (s : Run o)
        → Stays o j s
        → Stays o j (render o ctx mode d s).1
    unfolding render
    render-Stays mode d s h =
        let q = draw_with_fallback o ctx mode d s in
        elim (Result-cases q.0) [
          | inl (path, e) ↦ rw (e, render) (draw_with_fallback-Stays mode d s h)
          | inr (x, e) ↦
              let t =
                set_job_stage o rendering (codes "Rendering fallback active (Fast mode)…") 92
                  (emit o inc_render_fallback (emit o (inc_render_failure overlay) q.1)) in
              let k = set_job_stage-Stays _ _ _ _ (draw_with_fallback-Stays mode d s h) in
              elim (Result-cases
                (o.write_image_passthrough_output t.job.file_path t.inner.world).0) [
                  | inl (path, f) ↦ rw (e, render) (rw f k)
                  | inr (y, f) ↦ rw (e, render) (rw f k)
                ]
        ]

    announce_rendering-Stays :
        (mode : Mode) (s : Run o) → Stays o j s → Stays o j (announce_rendering o ctx mode s)
    announce_rendering-Stays mode s h = elim (Bool-cases (is_layout mode)) [
      | inl e ↦ rw e (set_job_stage-Stays _ _ _ s h)
      | inr e ↦ rw e (set_job_stage-Stays _ _ _ s h)
    ]

    finish_image-Stays :
        (mode : Mode) (blocks : List (Text × o.Place)) (segs : List (ℕ × Text)) (t : Assembled)
        (s : Run o)
        → Stays o j s
        → Stays o j (finish_image o ctx mode blocks segs t s)
    unfolding finish_image finish_rendered
    finish_image-Stays mode blocks segs t s h = elim (Bool-cases (is_nil t.full_target)) [
      | inl e ↦ rw e (pass_through-Stays _ h)
      | inr e ↦
          let s1 = announce_rendering o ctx mode s in
          let d : Drawing o ctx = (blocks, t.translated_texts) in
          let k = render-Stays mode d s1 (announce_rendering-Stays mode s h) in
          rw e (elim (Result-cases (render o ctx mode d s1).0) [
            | inl (path, f) ↦ rw f k
            | inr (x, f) ↦ rw f k
          ])
    ]

    finish_gathered-Stays :
        (mode : Mode) (blocks : List (Text × o.Place)) (segs : List (ℕ × Text))
        (q : Result (List (List Text)) × Run o)
        → Stays o j q.1
        → Stays o j (finish_gathered o ctx mode blocks segs q)
    finish_gathered-Stays mode blocks segs (err e, s) h = h
    finish_gathered-Stays mode blocks segs (ok parts, s) h =
        finish_image-Stays mode blocks segs _ s h

    translate_chunks_of-Stays :
        (mode : Mode) (cs : List TextChunk) (blocks : List (Text × o.Place))
        (segs : List (ℕ × Text)) (s : Run o)
        → Stays o j s
        → Leads (Stays o j) (translate_chunks_of o ctx mode cs blocks segs s)
    unfolding translate_chunks_of
    translate_chunks_of-Stays mode [] blocks segs s h = pass_through-Stays _ h
    translate_chunks_of-Stays mode (c ∷ cs) blocks segs s h =
        and_then-Leads (λ q. Stays o j q.1) (Stays o j) _ _
          (translate_image_chunks-Stays (c ∷ cs) _ (set_job_stage-Stays _ _ _ s h))
          (λ q k. finish_gathered-Stays mode blocks segs _ (gather_segments-Stays _ q.0 _ q.1 k))

    module _ (w : Tuning) where
      translate_segments-Stays :
          (mode : Mode) (blocks : List (Text × o.Place)) (segs : List (ℕ × Text)) (s : Run o)
          → Stays o j s
          → Leads (Stays o j) (translate_segments o ctx w mode blocks segs s)
      unfolding translate_segments finish_recognised_image
      translate_segments-Stays mode blocks segs s h =
          let k = set_job_stage-Stays _ _ _ s h in
          elim (Bool-cases (is_ocr_only_mode mode)) [
            | inl e ↦ rw e k
            | inr e ↦
                elim (Option-cases (build_chunk_units (segment_text segs) w.chunk_max_words)) [
                  | inl f ↦ rw e (rw f tt)
                  | inr (us, f) ↦ rw e (rw f (translate_chunks_of-Stays mode _ blocks segs _ k))
                ]
          ]

      translate_blocks-Stays :
          (mode : Mode) (blocks : List (OcrTextBlock o.Place)) (s : Run o)
          → Stays o j s
          → Leads (Stays o j) (translate_blocks o ctx w mode blocks s)
      unfolding translate_blocks
      translate_blocks-Stays mode blocks s h =
          let k = set_job_stage-Stays _ _ _ _ (warn_of_confidence-Stays _ _ h) in
          elim (Bool-cases (is_nil (segments 0 blocks))) [
            | inl e ↦ rw e (finish_without_text-Stays mode _ k)
            | inr e ↦ rw e (translate_segments-Stays mode _ (segments 0 blocks) _ k)
          ]

      pub process_image-Stays :
          (mode : Mode) (s : Run o) → Stays o j s → Leads (Stays o j) (process_image o ctx w mode s)
      unfolding process_image recognise_image set_job_stage
      process_image-Stays mode s h = elim (Bool-cases (is_empty s.job.file_path)) [
        | inl e ↦ rw e h
        | inr e ↦ elim (Option-cases (o.ocr_client)) [
          | inl f ↦ rw (e, f) h
          | inr (client, f) ↦ elim (Result-cases (recognise_image o ctx client mode s).0) [
            | inl (blocks, g) ↦
                rw (e, f)
                  (rw g
                    (translate_blocks-Stays mode blocks (recognise_image o ctx client mode s).1 h))
            | inr (x, g) ↦ rw (e, f) (rw g h)
          ]
        ]
      ]
