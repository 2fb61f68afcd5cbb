-- ===== src/Database/Counts.antt =====
-- A table that is also counted: Prisma's `count` with a `where` clause, and how an `upsert`
-- moves it.
use stasharr_portal.Prelude.Text.{eq_text}
use stasharr_portal.Prelude.{ℕ, ◌+◌, ◌≡◌, Bool, some, [], ◌∷◌, arith}
use stasharr_portal.Prelude.Dict.{Dict, get, put}
use stasharr_portal.Database.{Table, Eq, upserted, hits}
use stasharr_portal.Database.Memory.{memory, upsert_row}

pub record CountedTable (K Row : Type 0) ⦃e : Eq K⦄ : Type 1 where
  pub table : Table K Row
  pub count : (Row → Bool) → table.Rows → ℕ
  -- The row that was there no longer counts, and the row that is there now does.
  pub count-upsert :
      (p : Row → Bool) (k : K) (fresh : Row) (change : Row → Row) (db : table.Rows)
      → count p (table.upsert k fresh change db) + hits p (table.find_unique k db)
        ≡ count p db + hits p (some (upserted fresh change (table.find_unique k db)))
  -- A test that holds of a row as often as two others together counts what they count.
  pub count-split :
      (p q r : Row → Bool) (db : table.Rows)
      → ((row : Row) → hits p (some row) ≡ hits q (some row) + hits r (some row))
      → count p db ≡ count q db + count r db

module _ {K Row : Type 0} ⦃e : Eq K⦄ where
  unfoldable pub count_rows : (Row → Bool) → Dict K Row → ℕ
  count_rows p [] = 0
  count_rows p ((k, row) ∷ db) = hits p (some row) + count_rows p db

  count_rows-put :
      (p : Row → Bool) (k : K) (row : Row) (db : Dict K Row)
      → count_rows p (put k row db) + hits p (get k db) ≡ count_rows p db + hits p (some row)
  unfolding count_rows put get
  count_rows-put p k row [] = omega arith
  count_rows-put p k row ((j, other) ∷ db) = ground (arith, count_rows-put p k row db)

  pub count_rows-upsert_row :
      (p : Row → Bool) (k : K) (fresh : Row) (change : Row → Row) (db : Dict K Row)
      → count_rows p (upsert_row k fresh change db) + hits p (get k db)
        ≡ count_rows p db + hits p (some (upserted fresh change (get k db)))
  unfolding upsert_row
  count_rows-upsert_row p k fresh change db =
      count_rows-put p k (upserted fresh change (get k db)) db

  pub count_rows-split :
      (p q r : Row → Bool) (db : Dict K Row)
      → ((row : Row) → hits p (some row) ≡ hits q (some row) + hits r (some row))
      → count_rows p db ≡ count_rows q db + count_rows r db
  unfolding count_rows
  count_rows-split p q r [] h = omega arith
  count_rows-split p q r ((k, row) ∷ db) h = omega (arith, h row, count_rows-split p q r db h)

abbrev pub counted_memory : (K Row : Type 0) ⦃e : Eq K⦄ → CountedTable K Row
counted_memory K Row = record {
  table = memory K Row;
  count = count_rows;
  count-upsert = count_rows-upsert_row;
  count-split = count_rows-split;
}
