-- ===== src/Requests/Noted.antt =====
-- What the end of an accepted request leaves, apps/sp-api/src/requests/requests.service.ts: the row
-- of the request and the row of the index.
use stasharr_portal.Prelude.{ℕ, ◌≡◌, refl, ap, ◌∙◌, ◌≢◌, Bool, Option, none, some, [], sym}
use mathlib.Core.Option
use mathlib.Core.Path.{subst}
use stasharr_portal.Prelude.Text.{Text, eq_text, text_eq_refl, trim}
use stasharr_portal.Prelude.Results.{Result, ok, err, Handler, and_then}
use stasharr_portal.Database.{upserted}
use stasharr_portal.SceneStatus.{RequestStatus}
use stasharr_portal.Indexing.SyncState.{Thrown}
use stasharr_portal.Indexing.SceneIndex.{Field}
use stasharr_portal.Indexing.SceneIndex.Store.{Store, the_row}
use stasharr_portal.Indexing.SceneIndex.Sound.{NotStale}
use stasharr_portal.Indexing.SceneIndex.Seed.{
  SeedInput, seed_requested_scene, Seeded, seed_requested_scene-Seeded,
  seed_requested_scene-NotStale,
}
use stasharr_portal.Requests.{
  refresh, RequestsDatabase, RequestRow, World, Adapters, CatalogScene, seed_of, requested_row,
  upsert_local_request_row, seed, note_request, of_error,
}

-- A step that a handler passes.
pub and_then_ok :
    {S A B : Type 0} (p : S × Result A) (k : A → Handler S B) (s : S) (b : B)
    → and_then p k ≡ (s, ok b)
    → (a : A) × ((p.1 ≡ ok a) × (k a p.0 ≡ (s, ok b)))
and_then_ok (s', ok a) k s b h = (a, (refl, h))
and_then_ok (s', err e) k s b h = cc (ap (λ (q : _). q.1) h)

module _ (db : RequestsDatabase) (adapters : Adapters) where
  -- The request row and the row of the index say that the scene is requested.
  pub record Noted (id : Text) (after : World db) : Type 0 where
    pub status :
        Option.map (λ r. r.status) (db.requests.find_unique id after.requests)
        ≡ some RequestStatus.requested
    pub row :
        Option.map (λ r. r.request_status) (the_row db.index after.index id)
        ≡ some (some RequestStatus.requested)
    pub counted : NotStale db.index after.index

  fresh_or_same : (r : RequestRow) (old : Option RequestRow) → upserted r (λ _. r) old ≡ r
  fresh_or_same r none = refl
  fresh_or_same r (some _) = refl

  request_row :
      (id : Text) (r : RequestRow) (rows : db.requests.Rows)
      → db.requests.find_unique id (db.requests.upsert id r (λ _. r) rows) ≡ some r
  request_row id r rows =
      db.requests.find-upsert id id r (λ _. r) rows
      ∙ rw (text_eq_refl id) (ap some (fresh_or_same r (db.requests.find_unique id rows)))

  of_error_ok : (o : Option Thrown) (a : Unit {0}) → of_error db adapters o ≡ ok a → o ≡ none
  of_error_ok none a h = refl
  of_error_ok (some e) a h = cc h

  pub note_request-Noted :
      (now : ℕ) (outcomes : ℕ → ℕ → Option Thrown) (id : Text) (scene : CatalogScene)
      (movie_id : Field (Option ℕ)) (has_file : Bool) (reason : Text) (w after : World db)
      (u : Unit {0})
      → trim id ≡ id
      → id ≢ []
      → NotStale db.index w.index
      → note_request db adapters now outcomes id scene movie_id has_file reason w ≡ (after, ok u)
      → Noted id after × (after.created ≡ w.created)
  unfolding note_request upsert_local_request_row seed
  note_request-Noted now outcomes id scene movie_id has_file reason w after u e nonblank stale h =
      let input : SeedInput =
        seed_of db adapters id (requested_row db adapters now) scene movie_id has_file in
      let seeded : Store db.index × Option Thrown =
        seed_requested_scene db.index now outcomes input w.index in
      let written : World db = record w {
        requests =
            db.requests.upsert id (requested_row db adapters now)
              (λ _. requested_row db adapters now) w.requests;
        index = seeded.0;
      } in
      let (a, (passed, rest)) =
        and_then_ok (written, of_error db adapters seeded.1) (λ _. refresh db adapters id reason)
          after u h in
      let fine : seeded.1 ≡ none = of_error_ok seeded.1 a passed in
      let there : Seeded input (the_row db.index seeded.0 id) =
        subst (λ j. Seeded input (the_row db.index seeded.0 j)) e
          (seed_requested_scene-Seeded db.index now outcomes input w.index stale
            (λ z. nonblank (sym e ∙ z)) fine) in
      subst (λ v. Noted id v × (v.created ≡ w.created))
        (ap (λ (q : World db × Result (Unit {0})). q.0) rest)
        (
          record {
            status =
                ap (Option.map (λ r. r.status))
                  (request_row id (requested_row db adapters now) w.requests);
            row = there.request_status;
            counted = seed_requested_scene-NotStale db.index now outcomes input w.index stale;
          },
          refl,
        )
