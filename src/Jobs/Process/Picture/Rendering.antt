-- ===== src/Jobs/Process/Picture/Rendering.antt =====
-- The drawing of a translated image in Worker.process, and what stands in when it fails (backend/jobs/worker.go).
use lok_lingo.Prelude.{List, ◌++◌, if◌then◌else◌}
use lok_lingo.Go.Text.{Text, codes}
use lok_lingo.Go.Failure.{Result, ok, err}
use lok_lingo.Overlay.Options.{OverlayOptions}
use lok_lingo.Jobs.Job.{Mode, overlay, layout, rebuilding_layout, rendering}
use lok_lingo.Jobs.Process.State.{
  Outside, Run, render_started, inc_render_fallback, inc_render_failure, with_world, emit,
  set_job_stage,
}
use lok_lingo.Jobs.Process.Picture.Settings.{is_layout, overlay_options, render_options}

module _ (o : Outside) (ctx : o.rt.Ctx) where
  abbrev pub Drawing : Type 0
  Drawing = List (Text × o.Place) × List Text

  abbrev pub draw : Drawing → OverlayOptions → Run o → Result Text × Run o
  draw (blocks, texts) opts s =
      let (r, w) = o.draw_text_on_image s.job.file_path blocks texts opts s.inner.world in
      (r, with_world o w s)

  -- Layout rendering that fails is tried once more as an overlay.
  unfoldable pub draw_with_fallback : Mode → Drawing → Run o → Result Text × Run o
  draw_with_fallback mode d s =
      let (r, s1) = draw d (render_options mode s.job) s in
      elim r [
        | ok path ↦ (ok path, s1)
        | err e ↦
            if is_layout mode
            then draw d (overlay_options s1.job)
                (emit o inc_render_fallback (emit o (inc_render_failure layout) s1))
            else (err e, s1)
      ]

  -- The last resort is the image as it is.
  unfoldable pub render : Mode → Drawing → Run o → Result Text × Run o
  render mode d s =
      let (r, s1) = draw_with_fallback mode d s in
      elim r [
        | ok path ↦ (ok path, s1)
        | err e ↦
            let s2 =
              set_job_stage o rendering (codes "Rendering fallback active (Fast mode)…") 92
                (emit o inc_render_fallback (emit o (inc_render_failure overlay) s1)) in
            let (q, w) = o.write_image_passthrough_output s2.job.file_path s2.inner.world in
            elim q [
              | ok path ↦ (ok path, with_world o w s2)
              | err f ↦ (
                err (record f {
                  message =
                      codes "image rendering failed: "
                      ++ (e.message ++ (codes "; passthrough fallback failed: " ++ f.message));
                }),
                with_world o w s2,
              )
            ]
      ]

  abbrev pub announce_rendering : Mode → Run o → Run o
  announce_rendering mode s = emit o render_started (
      if is_layout mode
      then set_job_stage o rebuilding_layout (codes "Rebuilding image layout…") 85 s
      else set_job_stage o rendering (codes "Rendering translated image…") 85 s)
