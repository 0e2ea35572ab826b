-- ===== src/Examples/Pages.antt =====
-- The pages that a PDF counts as processed: the theorem at a concrete job, and runs of Worker.process.
use lok_lingo.Prelude.{ℕ, ◌≤◌, ◌≡◌, refl, some, [], ◌∷◌, arith}
use lok_lingo.Go.Text.{codes, fields, is_space, trim_space, join, split}
use lok_lingo.Go.Failure.{ok}
use lok_lingo.Jobs.Job.{Status, completed}
use lok_lingo.Jobs.Normalize.{normalize_pages, normalize_text, normalize_paragraphs}
use lok_lingo.Jobs.Chunks.{split_by_word_budget, build_chunk_units, build_text_chunks}
use lok_lingo.Jobs.Failures.{effective_translate_concurrency, removes_source}
use lok_lingo.Jobs.Translate.{
  Outcome, returns, panics, runs_out, translate_chunk, translate_single, translate_joined,
  use_answer,
}
use lok_lingo.Jobs.Translate.Retry.{translate_with_chunk_timeout, translate_with_retry, retry_from}
use lok_lingo.Jobs.Translate.Retry as Retry
use lok_lingo.Jobs.Process.{process, run_job, start, select_pipeline, finish}
use lok_lingo.Jobs.Process.State.{Outside, Run, set_job_stage, hear, notify_all}
use lok_lingo.Jobs.Process.Extract.{extract_pdf, check_pages, extract_text}
use lok_lingo.Jobs.Process.Document.{
  translate_document, translate_pages, translate_units, gather, add_parts, conclude,
}
use lok_lingo.Jobs.Process.Document.Chunk.{
  run_batch, run_chunk, look_up_checkpoint, look_up_in, translate_anew, settle, set_checkpoint,
  count_units, advance, chunk_checkpoint_key,
}
use lok_lingo.Jobs.Process.Answers.{Holds}
use lok_lingo.Jobs.Process.PageCount.Whole.{process-CountsWithin}
use lok_lingo.Examples.Failures.{broken_job}
use lok_lingo.Examples.Process.{answering, answers, small_chunks}

-- A PDF of two pages.
abbrev two_pages : Outside
two_pages = record answering {
  extract_pages = λ path w. (ok (codes "one two" ∷ codes "three" ∷ []), w);
}

-- The same, when every chunk has a checkpoint.
abbrev resumed : Outside
resumed = record two_pages {
  checkpoints = some (record {
    get_chunk_checkpoint =
        λ id key w. (ok (some (record { page_index = 0; text = codes "uno"; words = 1 } ∷ [])), w);
    set_chunk_checkpoint = λ id key us w. (ok tt, w);
  });
}

abbrev pdf_run : (o : Outside) → Retry.State o.rt → Run o
pdf_run o inner = record { job = record broken_job { error_msg = [] }; inner = inner; events = [] }

process-CountsWithin_example :
    Holds
      (λ t. t.job.processed_pages ≤ t.job.total_pages)
      (process two_pages 0 small_chunks (pdf_run two_pages answers))
process-CountsWithin_example =
    process-CountsWithin two_pages 0 small_chunks (pdf_run two_pages answers) (omega arith)
      (omega arith)

abbrev counted : {o : Outside} → Outcome (Run o) → Status × ℕ × ℕ
counted (returns t) = (t.job.status, t.job.processed_pages, t.job.total_pages)
counted panics = (completed, 0, 0)
counted runs_out = (completed, 0, 0)

-- Both pages are counted, and none of those that are taken from checkpoints.
both_counted :
    (counted (process two_pages 0 small_chunks (pdf_run two_pages answers)) ≡ (completed, 2, 2))
    × (counted (process resumed 0 small_chunks (pdf_run resumed answers)) ≡ (completed, 0, 2))
unfolding process run_job start select_pipeline finish translate_pages translate_units run_batch
    run_chunk look_up_checkpoint look_up_in translate_anew settle set_checkpoint gather add_parts
    conclude count_units advance chunk_checkpoint_key set_job_stage hear notify_all
    split_by_word_budget build_text_chunks effective_translate_concurrency translate_chunk
    translate_single translate_joined translate_with_chunk_timeout translate_with_retry retry_from
    use_answer removes_source translate_document build_chunk_units fields is_space trim_space join
    split extract_pdf check_pages extract_text normalize_pages normalize_text normalize_paragraphs
both_counted = (refl, refl)
