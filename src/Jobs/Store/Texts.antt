-- ===== src/Jobs/Store/Texts.antt =====
-- The translation cache and the chunk checkpoints of the store (backend/jobs/store.go), over the keys of the
-- server that hold a text. Nothing expires here.
pub mod Scans
pub mod Checkpoints
pub mod Cache
use lok_lingo.Prelude.{
  ℕ, zero, suc, ◌≡◌, ◌≢◌, ◌<◌, ◌⊎◌, Bool, true, false, ◌||◌, List, [], ◌∷◌, ◌++◌, Option, none,
  some, if◌then◌else◌, ◌==◌, length, All, any,
}
use lok_lingo.Go.Text.{Text, codes, text_eq, is_empty, trim_space, has_prefix}
use lok_lingo.Go.Failure.{plain_error, GoError, Result, ok, err}
use lok_lingo.Jobs.Job.{JobId}
use lok_lingo.Jobs.Chunks.{ChunkUnit}
use lok_lingo.Jobs.Redis.{Redis}
use lok_lingo.Jobs.Store.{Action, pure, fail, single, wrapped, quiet, ◌>>=◌, ◌>>◌}

pub record CheckpointUnit : Type 0 where
  pub page_index : ℕ
  pub text : Text
  pub words : ℕ

unfoldable pub chunk_units_to_checkpoint_units : List ChunkUnit → List CheckpointUnit
chunk_units_to_checkpoint_units [] = []
chunk_units_to_checkpoint_units (u ∷ us) =
    record { page_index = u.page_index; text = u.text; words = u.words }
    ∷ chunk_units_to_checkpoint_units us

unfoldable pub checkpoint_units_to_chunk_units : List CheckpointUnit → List ChunkUnit
checkpoint_units_to_chunk_units [] = []
checkpoint_units_to_chunk_units (u ∷ us) =
    record { page_index = u.page_index; text = u.text; words = u.words }
    ∷ checkpoint_units_to_chunk_units us

abbrev pub holds_text : Text → List Text → Bool
holds_text k [] = false
holds_text k (q ∷ qs) = text_eq q k || holds_text k qs

-- The servers at which the scans of an iteration find themselves, from a cursor to its end.
abbrev pub Iterates : {Db : Type 0} → (ℕ → Db → List Text × ℕ) → ℕ → List Db → Type 0
Iterates scan cursor [] = ⊥
Iterates scan cursor (db ∷ []) = (scan cursor db).1 ≡ 0
Iterates scan cursor (db ∷ db' ∷ dbs) =
    ((scan cursor db).1 ≢ 0) × Iterates scan (scan cursor db).1 (db' ∷ dbs)

-- The keys that an iteration has returned.
abbrev pub returned : {Db : Type 0} → (ℕ → Db → List Text × ℕ) → ℕ → List Db → List Text
returned scan cursor [] = []
returned scan cursor (db ∷ dbs) = (scan cursor db).0 ++ returned scan (scan cursor db).1 dbs

-- The texts that a server holds, beside what the queues are made of.
pub record TextKeys (r : Redis) : Type 0 where
  pub texts : r.Db → Text → Option Text
  pub get : Text → r.Db → Option Text
  pub get_lem : (k : Text) (db : r.Db) → get k db ≡ texts db k
  pub set : Text → Text → r.Db → r.Db
  pub texts-set :
      (k v q : Text) (db : r.Db)
      → texts (set k v db) q ≡ (if text_eq k q then some v else texts db q)
  pub del : List Text → r.Db → r.Db
  pub texts-del :
      (ks : List Text) (q : Text) (db : r.Db)
      → texts (del ks db) q ≡ (if holds_text q ks then none else texts db q)
  -- SCAN of the keys with a prefix: keys that have it, and the next cursor
  pub scan : Text → ℕ → r.Db → List Text × ℕ
  pub scan-prefix :
      (p : Text) (cursor : ℕ) (db : r.Db) → All (λ k. has_prefix k p ≡ true) (scan p cursor db).0
  -- a full iteration returns every key that is there from its start to its end
  pub scan_complete :
      (p k : Text) (dbs : List r.Db)
      → has_prefix k p ≡ true
      → Iterates (scan p) 0 dbs
      → All (λ db. texts db k ≢ none) dbs
      → holds_text k (returned (scan p) 0 dbs) ≡ true
  -- and it ends, while keys are only removed: so many calls are left
  pub scans_left : Text → ℕ → r.Db → ℕ
  pub scan_ends :
      (p : Text) (cursor : ℕ) (db db' : r.Db)
      → ((q : Text) → (texts db' q ≡ texts db q) ⊎ (texts db' q ≡ none))
      → ((scan p cursor db).1 ≡ 0)
        ⊎ (scans_left p (scan p cursor db).1 db' < scans_left p cursor db)
  -- json.Marshal and json.Unmarshal of a checkpoint, and the SHA-256 of a text in hexadecimal digits
  pub marshal : List CheckpointUnit → Text
  pub unmarshal : Text → Option (List CheckpointUnit)
  pub unmarshal-marshal : (us : List CheckpointUnit) → unmarshal (marshal us) ≡ some us
  pub sha256_hex : Text → Text

-- What CacheKey hashes.
abbrev pub hashed_text : Text → Text → Text → Text
hashed_text text source target = source ++ (0 ∷ target ++ (0 ∷ text))

abbrev pub not_found : GoError
not_found = plain_error (codes "job not found")

module _ (r : Redis) (k : TextKeys r) where
  unfoldable pub cache_key : Text → Text → Text → Text
  cache_key text source target =
      codes "loklingo:cache:" ++ k.sha256_hex (hashed_text text source target)

  abbrev pub or_not_found : Option Text → Action r Text
  or_not_found none = fail not_found
  or_not_found (some t) = pure t

  unfoldable pub get_cached : Text → Text → Text → Action r Text
  get_cached text source target = do
    found ←
        wrapped (codes "redis cache get")
          (single (λ db. (k.get (cache_key text source target) db, db)))
    or_not_found found

  unfoldable pub set_cached : Text → Text → Text → Text → Action r (Unit {0})
  set_cached text source target translated =
      single (quiet (k.set (cache_key text source target) translated))

  abbrev pub chunk_prefix : JobId → Text
  chunk_prefix id = codes "loklingo:job:" ++ (codes id ++ codes ":chunk:")

  abbrev pub chunk_key : JobId → Text → Text
  chunk_key id key = chunk_prefix id ++ key

  abbrev pub units_read : Option (List CheckpointUnit) → Action r (Option (List ChunkUnit))
  units_read none = fail (plain_error (codes "unmarshal chunk checkpoint"))
  units_read (some us) = pure (some (checkpoint_units_to_chunk_units us))

  abbrev pub checkpoint_read : Option Text → Action r (Option (List ChunkUnit))
  checkpoint_read none = pure none
  checkpoint_read (some json) = units_read (k.unmarshal json)

  unfoldable pub get_chunk_checkpoint : JobId → Text → Action r (Option (List ChunkUnit))
  get_chunk_checkpoint id key = do
    found ←
        wrapped (codes "redis get chunk checkpoint")
          (single (λ db. (k.get (chunk_key id key) db, db)))
    checkpoint_read found

  unfoldable pub set_chunk_checkpoint : JobId → Text → List ChunkUnit → Action r (Unit {0})
  set_chunk_checkpoint id key units = wrapped (codes "redis set chunk checkpoint") (
      single (quiet (k.set (chunk_key id key) (k.marshal (chunk_units_to_checkpoint_units units)))))

  abbrev pub delete_found : List Text → Action r (Unit {0})
  delete_found [] = pure tt
  delete_found (q ∷ qs) =
      wrapped (codes "delete chunk checkpoints") (single (quiet (k.del (q ∷ qs))))

  -- The loop of ClearChunkCheckpoints, on fuel.
  unfoldable pub clear_from : ℕ → Text → ℕ → Action r (Unit {0})
  clear_from zero prefix cursor = fail (plain_error (codes "out of fuel"))
  clear_from (suc fuel) prefix cursor = do
    page ← wrapped (codes "scan chunk checkpoints") (single (λ db. (k.scan prefix cursor db, db)))
    delete_found page.0
    elim (page.1) [ zero ↦ pure tt | suc next ↦ clear_from fuel prefix (suc next) ]

  -- The pattern is the prefix and a star; an id has no character that is special in a pattern.
  unfoldable pub clear_chunk_checkpoints : JobId → Action r (Unit {0})
  clear_chunk_checkpoints id w =
      if is_empty (trim_space (codes id))
      then fail (plain_error (codes "job id is required")) w
      else clear_from (suc (k.scans_left (chunk_prefix id) 0 w.db)) (chunk_prefix id) 0 w
