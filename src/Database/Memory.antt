-- ===== src/Database/Memory.antt =====
-- A table kept in memory as a dictionary: the laws of `Table` can hold, and the services run on it.
use mathlib.Core.Option
use stasharr_portal.Prelude.Dict.{Dict, get, put, remove, get-put, get-remove}
use stasharr_portal.Prelude.Text.{eq_text}
use stasharr_portal.Prelude.{
  ℕ, ◌≡◌, refl, ap, inl, inr, Bool, Option, none, some, [], ◌∷◌, arith, if◌then◌else◌, Option-cases,
  ◌===◌, Bool-cases,
}
use stasharr_portal.Database.{reject, upserted, updated, hits, Table, Eq}

module _ {K Row : Type 0} ⦃e : Eq K⦄ where
  unfoldable pub create_row : K → Row → Dict K Row → Option (Dict K Row)
  create_row k row db = elim (get k db) [ none ↦ some (put k row db) | some _ ↦ none ]

  unfoldable pub update_row : K → (Row → Row) → Dict K Row → Option (Dict K Row)
  update_row k change db = elim (get k db) [ none ↦ none | some row ↦ some (put k (change row) db) ]

  unfoldable pub update_rows : K → (Row → Bool) → (Row → Row) → Dict K Row → Dict K Row × ℕ
  update_rows k p change db = elim (get k db) [
    | none ↦ (db, 0)
    | some row ↦ if p row then (put k (change row) db, 1) else (db, 0)
  ]

  unfoldable pub delete_rows : (K → Row → Bool) → Dict K Row → Dict K Row
  delete_rows p [] = []
  delete_rows p ((k, row) ∷ db) =
      let rest = delete_rows p db in if p k row then remove k rest else (k, row) ∷ rest

  pub get-create_row :
      (k j : K) (row : Row) (db : Dict K Row)
      → Option.map (get j) (create_row k row db)
        ≡ (elim (get k db) [ none ↦ some (if k === j then some row else get j db) | some _ ↦ none ])
  unfolding create_row
  get-create_row k j row db = elim (Option-cases (get k db)) [
    | inl e ↦ rw (e, create_row) (ground (arith, get-put k j row db))
    | inr (r, e) ↦ rw (e, create_row) refl
  ]

  pub get-update_row :
      (k j : K) (change : Row → Row) (db : Dict K Row)
      → Option.map (get j) (update_row k change db) ≡ (elim (get k db) [
        | none ↦ none
        | some row ↦ some (if k === j then some (change row) else get j db)
      ])
  unfolding update_row
  get-update_row k j change db = elim (Option-cases (get k db)) [
    | inl e ↦ rw (e, update_row) refl
    | inr (r, e) ↦ rw (e, update_row) (ground (arith, get-put k j (change r) db))
  ]

  pub get-update_rows :
      (k j : K) (p : Row → Bool) (change : Row → Row) (db : Dict K Row)
      → get j (update_rows k p change db).0
        ≡ (if k === j then updated p change (get k db) else get j db)
  unfolding update_rows
  get-update_rows k j p change db = elim (Option-cases (get k db)) [
    | inl n ↦ rw (n, update_rows) (ground (arith, e.beq_iff k j))
    | inr (r, h) ↦ rw (h, update_rows) (ground (arith, e.beq_iff k j, get-put k j (change r) db))
  ]

  pub count-update_rows :
      (k : K) (p : Row → Bool) (change : Row → Row) (db : Dict K Row)
      → (update_rows k p change db).1 ≡ hits p (get k db)
  unfolding update_rows
  count-update_rows k p change db = ground arith

  pub get-delete_rows :
      (j : K) (p : K → Row → Bool) (db : Dict K Row)
      → get j (delete_rows p db) ≡ reject (p j) (get j db)
  unfolding delete_rows get
  get-delete_rows j p [] = refl
  get-delete_rows j p ((k, row) ∷ db) = elim (Bool-cases (k === j)) [
    | inl same ↦
        let at_j : p k row ≡ p j row = ap (λ i. p i row) ((e.beq_iff k j).0 same) in
        ground (arith, at_j, get-remove k j (delete_rows p db), get-delete_rows j p db)
    | inr other ↦ ground (arith, get-remove k j (delete_rows p db), get-delete_rows j p db)
  ]

  unfoldable pub upsert_row : K → Row → (Row → Row) → Dict K Row → Dict K Row
  upsert_row k fresh change db = put k (upserted fresh change (get k db)) db

  pub get-upsert_row :
      (k j : K) (fresh : Row) (change : Row → Row) (db : Dict K Row)
      → get j (upsert_row k fresh change db)
        ≡ (if k === j then some (upserted fresh change (get k db)) else get j db)
  unfolding upsert_row
  get-upsert_row k j fresh change db = get-put k j (upserted fresh change (get k db)) db

-- `abbrev`, so that a service over it computes.
abbrev pub memory : (K Row : Type 0) ⦃e : Eq K⦄ → Table K Row
memory K Row = record {
  Rows = Dict K Row;
  find_unique = get;
  create = create_row;
  upsert = upsert_row;
  update = update_row;
  update_many = update_rows;
  delete_many = delete_rows;
  find-create = get-create_row;
  find-upsert = get-upsert_row;
  find-update = get-update_row;
  find-update_many = get-update_rows;
  count-update_many = count-update_rows;
  find-delete_many = get-delete_rows;
}
