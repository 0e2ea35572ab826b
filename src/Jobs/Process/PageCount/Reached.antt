-- ===== src/Jobs/Process/PageCount/Reached.antt =====
-- The count of processed pages while the chunks of a document are translated (Worker.process in
-- backend/jobs/worker.go).
use lok_lingo.Prelude.{
  ℕ, zero, suc, ◌+◌, ◌≡◌, ◌≤◌, refl, ap, sym, ◌∙◌, Bool, true, false, ◌&&◌, List, [], ◌∷◌, Option,
  none, some, arith, length, get_elem?, ltb, leb, if◌then◌else◌,
}
use lok_lingo.Jobs.Job.{Job}
use lok_lingo.Jobs.Chunks.{ChunkUnit}
use lok_lingo.Jobs.Process.Document.Chunk.{increment, same_count, is_pdf, zeros, count_units}
use lok_lingo.Jobs.Process.Keeps.{Keeps}

-- The pages that have a unit, and have as many units done as they have.
abbrev pub reached : List ℕ → List ℕ → ℕ
reached (t ∷ ts) (d ∷ ds) = (if ltb 0 t && leb t d then 1 else 0) + reached ts ds
reached _ _ = 0

pub reached_bound : (targets done : List ℕ) → reached targets done ≤ length targets
reached_bound [] done = omega arith
reached_bound (t ∷ ts) [] = omega arith
reached_bound (t ∷ ts) (d ∷ ds) = ground (arith, reached_bound ts ds)

pub reached-zeros {ℓ} :
    {A : Type ℓ} (targets : List ℕ) (xs : List A) → reached targets (zeros xs) ≡ 0
reached-zeros [] xs = refl
reached-zeros (t ∷ ts) [] = refl
reached-zeros (t ∷ ts) (x ∷ xs) = ground (arith, reached-zeros ts xs)

length-increment : (i : ℕ) (ns : List ℕ) → length (increment i ns) ≡ length ns
length-increment i [] = refl
length-increment zero (n ∷ ns) = refl
length-increment (suc i) (n ∷ ns) = ap (λ k. suc k) (length-increment i ns)

pub length-count_units :
    (us : List ChunkUnit) (counts : List ℕ) → length (count_units us counts) ≡ length counts
unfolding count_units
length-count_units [] counts = refl
length-count_units (u ∷ us) counts = length-count_units us _ ∙ length-increment u.page_index counts

pub length-zeros {ℓ} : {A : Type ℓ} (xs : List A) → length (zeros xs) ≡ length xs
length-zeros [] = refl
length-zeros (x ∷ xs) = ap (λ k. suc k) (length-zeros xs)

abbrev one_if : Bool → ℕ
one_if whole = if whole then 1 else 0

same_count-none : (a : Option ℕ) → same_count a none ≡ false
same_count-none none = refl
same_count-none (some a) = refl

-- A unit that is done reaches its page exactly when the page is counted.
reached-increment :
    (targets done : List ℕ) (i : ℕ)
    → reached targets (increment i done)
      ≡ reached targets done
        + one_if (same_count (get_elem? (increment i done) i) (get_elem? targets i))
reached-increment [] [] i = refl
reached-increment [] (d ∷ ds) i =
    rw (same_count-none (get_elem? (increment i (d ∷ ds)) i)) (omega arith)
reached-increment (t ∷ ts) [] i = refl
reached-increment (t ∷ ts) (d ∷ ds) zero = ground arith
reached-increment (t ∷ ts) (d ∷ ds) (suc i) = ground (arith, reached-increment ts ds i)

-- The job counts the pages that are reached, of so many pages.
abbrev pub CountsReached : List ℕ → ℕ → List ℕ → Job → Type 0
CountsReached targets pages done job =
    (job.total_pages ≡ pages) × (job.processed_pages ≡ reached targets done)

pub counts-Keeps : (targets : List ℕ) (pages : ℕ) → Keeps targets (CountsReached targets pages)
counts-Keeps targets pages = record {
  frame = λ done j k e h. (
    sym (ap (λ (job : Job). job.total_pages) e) ∙ h.0,
    sym (ap (λ (job : Job). job.processed_pages) e) ∙ h.1,
  );
  count = λ done j i p h.
      counted (same_count (get_elem? (increment i done) i) (get_elem? targets i)) done j i h
        (reached-increment targets done i);
}
  where
    counted :
        (whole : Bool) (done : List ℕ) (j : Job) (i : ℕ)
        → CountsReached targets pages done j
        → reached targets (increment i done) ≡ reached targets done + one_if whole
        → CountsReached targets pages
            (increment i done)
            (if whole then record j { processed_pages = j.processed_pages + 1 } else j)
    counted true done j i h e = (h.0, omega (arith, h.1, e))
    counted false done j i h e = (h.0, omega (arith, h.1, e))

-- A job that is no PDF counts no pages.
abbrev pub CountsNone : Job → List ℕ → Job → Type 0
CountsNone j done job =
    (is_pdf job.type ≡ false)
    × (job.total_pages ≡ j.total_pages)
    × (job.processed_pages ≡ j.processed_pages)

pub none-Keeps : (targets : List ℕ) (j : Job) → Keeps targets (CountsNone j)
none-Keeps targets j = record {
  frame = λ done k l e h. (
    sym (ap (λ (job : Job). is_pdf job.type) e) ∙ h.0,
    sym (ap (λ (job : Job). job.total_pages) e) ∙ h.1,
    sym (ap (λ (job : Job). job.processed_pages) e) ∙ h.2,
  );
  count = λ done k i p h. absurd (cc);
}
