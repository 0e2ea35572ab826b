-- ===== src/Jobs/Store/Texts/Checkpoints.antt =====
-- The checkpoints of the chunks of a job (GetChunkCheckpoint, SetChunkCheckpoint and ClearChunkCheckpoints in
-- backend/jobs/store.go).
use mathlib.Core.Path.{subst}
use lok_lingo.Prelude.{
  ℕ, zero, suc, ◌≡◌, refl, ap, ◌∙◌, inl, inr, true, false, All, List, [], ◌∷◌, none, some, arith,
  Bool-cases,
}
use lok_lingo.Go.Equal.{text_eq_refl, has_prefix-append}
use lok_lingo.Go.Text.{Text, codes, has_prefix, is_empty, trim_space}
use lok_lingo.Go.Failure.{ok}
use lok_lingo.Jobs.Job.{JobId}
use lok_lingo.Jobs.Redis.{Redis, Data}
use lok_lingo.Jobs.Store.{Action, World, single, wrapped, pure, ◌>>=◌}
use lok_lingo.Jobs.Store.Texts.{
  TextKeys, delete_found, clear_from, clear_chunk_checkpoints, chunk_prefix, chunk_key,
  get_chunk_checkpoint,
}
use lok_lingo.Jobs.Store.Texts.Scans.{calm, clear_from-Cleared, Cleared-texts}
use lok_lingo.Jobs.Store.Keeps.{
  Keeps, Keeps-pure, Keeps-fail, Keeps-single, Keeps-wrapped, Keeps-bind, Keeps-bind_answered,
  wrapped-query,
}
use lok_lingo.Jobs.Store.Texts.{
  chunk_units_to_checkpoint_units, checkpoint_units_to_chunk_units, set_chunk_checkpoint,
}
use lok_lingo.Jobs.Chunks.{ChunkUnit}

get_chunk_checkpoint-none :
    (r : Redis) (k : TextKeys r) (id : JobId) (key : Text) (db : r.Db) (now : ℕ)
    → k.texts db (chunk_key r k id key) ≡ none
    → (get_chunk_checkpoint r k id key (calm r db now)).0 ≡ ok none
unfolding get_chunk_checkpoint wrapped single pure ◌>>=◌
get_chunk_checkpoint-none r k id key db now e =
    let absent : k.get (chunk_key r k id key) db ≡ none = k.get_lem (chunk_key r k id key) db ∙ e in
    rw absent refl

-- When every round trip is answered, ClearChunkCheckpoints ends without an error. Then no chunk of the job has a
-- checkpoint, and every text under another key, such as a cached translation, is as it was.
pub clear_chunk_checkpoints-clears :
    (r : Redis) (k : TextKeys r) (id : JobId) (db : r.Db) (now : ℕ)
    → is_empty (trim_space (codes id)) ≡ false
    → let q = clear_chunk_checkpoints r k id (record { db = db; trips = []; clock = now }) in
      (q.0 ≡ ok tt)
      × ((key : Text) → (get_chunk_checkpoint r k id key q.1).0 ≡ ok none)
      × ((x : Text) → has_prefix x (chunk_prefix r k id) ≡ false → k.texts q.1.db x ≡ k.texts db x)
unfolding clear_chunk_checkpoints
clear_chunk_checkpoints-clears r k id db now named =
    let p = chunk_prefix r k id in
    let c = clear_from-Cleared r k p (suc (k.scans_left p 0 db)) 0 db now (omega arith) in
    rw named (
      c.answer,
      λ key.
          ap (λ w. (get_chunk_checkpoint r k id key w).0) c.calmed
          ∙ get_chunk_checkpoint-none r k id key _ now
              ((Cleared-texts r k p c (chunk_key r k id key)).0 (has_prefix-append p key)),
      λ x. (Cleared-texts r k p c x).1,
    )

checkpoint_units_to_chunk_units-inverse :
    (us : List ChunkUnit)
    → checkpoint_units_to_chunk_units (chunk_units_to_checkpoint_units us) ≡ us
unfolding checkpoint_units_to_chunk_units chunk_units_to_checkpoint_units
checkpoint_units_to_chunk_units-inverse [] = refl
checkpoint_units_to_chunk_units-inverse (u ∷ us) =
    ap (λ vs. u ∷ vs) (checkpoint_units_to_chunk_units-inverse us)

-- A checkpoint that is set is found, with its units in order.
pub get_chunk_checkpoint-set :
    (r : Redis) (k : TextKeys r) (id : JobId) (key : Text) (units : List ChunkUnit) (db : r.Db)
    (now : ℕ)
    → (get_chunk_checkpoint r k id key (set_chunk_checkpoint r k id key units (calm r db now)).1).0
      ≡ ok (some units)
unfolding get_chunk_checkpoint set_chunk_checkpoint wrapped single pure ◌>>=◌
get_chunk_checkpoint-set r k id key units db now =
    let name = chunk_key r k id key in
    let json = k.marshal (chunk_units_to_checkpoint_units units) in
    let found : k.get name (k.set name json db) ≡ some json =
      k.get_lem name (k.set name json db)
      ∙ (k.texts-set name json name db ∙ rw (text_eq_refl name) refl) in
    rw
      (
        found,
        k.unmarshal-marshal (chunk_units_to_checkpoint_units units),
        checkpoint_units_to_chunk_units-inverse units,
      )
      refl

-- Deleting keys with the prefix leaves the queues and the jobs alone, as it does where the key of no job has it.
abbrev pub IsApart : (r : Redis) → TextKeys r → Text → Type 0
IsApart r k prefix =
    (ks : List Text) (db : r.Db)
    → All (λ q. has_prefix q prefix ≡ true) ks
    → r.view (k.del ks db) ≡ r.view db

module _ (r : Redis) (k : TextKeys r) (prefix : Text) (apart : IsApart r k prefix)
    (d : Data r.Payload) where
  abbrev StillKeeps : {A : Type 0} → Action r A → Type 0
  StillKeeps = Keeps r (λ v. v ≡ d)

  delete_found-Keeps :
      (qs : List Text) → All (λ q. has_prefix q prefix ≡ true) qs → StillKeeps (delete_found r k qs)
  delete_found-Keeps [] h = Keeps-pure tt
  delete_found-Keeps (q ∷ qs) h =
      Keeps-wrapped _ _ (Keeps-single _ (λ db e. apart (q ∷ qs) db h ∙ e))

  next-Keeps :
      (next : ℕ) (loop : ℕ → Action r (Unit {0}))
      → ((cursor : ℕ) → StillKeeps (loop cursor))
      → StillKeeps (elim next [ zero ↦ pure tt | suc n ↦ loop (suc n) ])
  next-Keeps zero loop h = Keeps-pure tt
  next-Keeps (suc n) loop h = h (suc n)

  clear_from-Keeps : (fuel cursor : ℕ) → StillKeeps (clear_from r k fuel prefix cursor)
  unfolding clear_from
  clear_from-Keeps zero cursor = Keeps-fail _
  clear_from-Keeps (suc fuel) cursor =
      Keeps-bind_answered _ _ (Keeps-wrapped _ _ (Keeps-single _ (λ db h. h))) (λ w page e.
        Keeps-bind _ _ (delete_found-Keeps page.0 (scanned cursor w page e))
          (λ u. next-Keeps page.1 (clear_from r k fuel prefix) (clear_from-Keeps fuel)))
    where
      scanned :
          (cursor : ℕ) (w : World r) (page : List Text × ℕ)
          → (wrapped
              (codes "scan chunk checkpoints")
              (single {r = r} (λ db. (k.scan prefix cursor db, db)))
              w).0
            ≡ ok page
          → All (λ q. has_prefix q prefix ≡ true) page.0
      scanned cursor w page e =
          subst (λ (q : List Text × ℕ). All (λ x. has_prefix x prefix ≡ true) q.0)
            (wrapped-query r (codes "scan chunk checkpoints") (k.scan prefix cursor) w.db w.trips
              w.clock page e)
            (k.scan-prefix prefix cursor w.db)

-- Whatever becomes of the round trips, clearing the checkpoints of a job leaves the queues and the jobs alone, where
-- the key of no job has their prefix.
pub clear_chunk_checkpoints-view :
    (r : Redis) (k : TextKeys r) (id : JobId)
    → IsApart r k (chunk_prefix r k id)
    → (w : World r) → r.view (clear_chunk_checkpoints r k id w).1.db ≡ r.view w.db
unfolding clear_chunk_checkpoints
clear_chunk_checkpoints-view r k id apart w = elim (Bool-cases (is_empty (trim_space (codes id)))) [
  | inl e ↦ rw e ((Keeps-fail {P = λ v. v ≡ r.view w.db} {A = Unit {0}} _).at w refl)
  | inr e ↦ rw e ((clear_from-Keeps r k (chunk_prefix r k id) apart (r.view w.db) _ 0).at w refl)
]
