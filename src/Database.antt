-- ===== src/Database.antt =====
-- What the services use of a Prisma model (`prisma/schema.prisma`): the calls on one table whose
-- `where` clause names a unique column. Prisma is not part of the repository, so the table is a
-- parameter of the services, with the documented effect of each call as a law on `findUnique`.
use mathlib.Core.Option
use stasharr_portal.Prelude.Text.{eq_text, Text}
use stasharr_portal.Prelude.{ℕ, ◌≡◌, Bool, Option, none, some, map, if◌then◌else◌, ◌===◌, Eq}
pub mod Memory
pub mod Updates
pub mod Counts

-- `deleteMany` drops the row that the predicate selects.
abbrev pub reject {ℓ} : {A : Type ℓ} → (A → Bool) → Option A → Option A
reject p none = none
reject p (some a) = if p a then none else some a

-- What `upsert` leaves at its key.
abbrev pub upserted : {Row : Type 0} → Row → (Row → Row) → Option Row → Row
upserted fresh change none = fresh
upserted fresh change (some row) = change row

-- What `updateMany` leaves at its key, and how many rows it counts.
abbrev pub updated : {Row : Type 0} → (Row → Bool) → (Row → Row) → Option Row → Option Row
updated p change none = none
updated p change (some row) = some (if p row then change row else row)

abbrev pub hits : {Row : Type 0} → (Row → Bool) → Option Row → ℕ
hits p none = 0
hits p (some row) = if p row then 1 else 0

pub record Table (K Row : Type 0) ⦃e : Eq K⦄ : Type 1 where
  pub Rows : Type 0
  pub find_unique : K → Rows → Option Row
  pub create : K → Row → Rows → Option Rows
  pub upsert : K → Row → (Row → Row) → Rows → Rows
  pub update : K → (Row → Row) → Rows → Option Rows
  pub update_many : K → (Row → Bool) → (Row → Row) → Rows → Rows × ℕ
  pub delete_many : (K → Row → Bool) → Rows → Rows
  -- A `create` at a key that is taken fails on the unique constraint.
  pub find-create :
      (k j : K) (row : Row) (db : Rows)
      → Option.map (find_unique j) (create k row db) ≡ (elim (find_unique k db) [
        | none ↦ some (if k === j then some row else find_unique j db)
        | some _ ↦ none
      ])
  pub find-upsert :
      (k j : K) (fresh : Row) (change : Row → Row) (db : Rows)
      → find_unique j (upsert k fresh change db)
        ≡ (if k === j then some (upserted fresh change (find_unique k db)) else find_unique j db)
  -- An `update` of a row that is not there throws.
  pub find-update :
      (k j : K) (change : Row → Row) (db : Rows)
      → Option.map (find_unique j) (update k change db) ≡ (elim (find_unique k db) [
        | none ↦ none
        | some row ↦ some (if k === j then some (change row) else find_unique j db)
      ])
  pub find-update_many :
      (k j : K) (p : Row → Bool) (change : Row → Row) (db : Rows)
      → find_unique j (update_many k p change db).0
        ≡ (if k === j then updated p change (find_unique k db) else find_unique j db)
  pub count-update_many :
      (k : K) (p : Row → Bool) (change : Row → Row) (db : Rows)
      → (update_many k p change db).1 ≡ hits p (find_unique k db)
  pub find-delete_many :
      (j : K) (p : K → Row → Bool) (db : Rows)
      → find_unique j (delete_many p db) ≡ reject (p j) (find_unique j db)
