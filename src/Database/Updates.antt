-- ===== src/Database/Updates.antt =====
-- Consequences of a table's laws that several services use.
use stasharr_portal.Prelude.Text.{Text, text_eq, eq_text, text_eq_iff}
use stasharr_portal.Prelude.{
  ◌≡◌, sym, ap, ◌∙◌, inl, inr, none, some, if◌then◌else◌, Option-cases, ◌===◌, arith,
}
use mathlib.Core.Option
use mathlib.Core.Option.{some-injective}
use stasharr_portal.Database.{Table, Eq}

-- An `update` of a row that is there succeeds, and changes that row alone.
pub update_found :
    {K Row : Type 0} ⦃e : Eq K⦄ (table : Table K Row) (k : K) (change : Row → Row) (row : Row)
    (rows : table.Rows)
    → table.find_unique k rows ≡ some row
    → (rows' : table.Rows) × (table.update k change rows ≡ some rows')
      × ((j : K)
          → table.find_unique j rows'
            ≡ (if k === j then some (change row) else table.find_unique j rows))
update_found table k change row rows h = elim (Option-cases (table.update k change rows)) [
  | inl lost ↦ cc (table.find-update k k change rows, ap (Option.map (table.find_unique k)) lost, h)
  | inr (rows', done) ↦ (
    rows',
    done,
    λ j.
        some-injective (table.find_unique j rows')
          (if k === j then some (change row) else table.find_unique j rows)
          (sym (ap (Option.map (table.find_unique j)) done)
            ∙ (table.find-update k j change rows ∙ rw h)),
  )
]

-- A `deleteMany` by key drops that row alone.
pub find-delete_key :
    {Row : Type 0} (table : Table Text Row) (id j : Text) (rows : table.Rows)
    → table.find_unique j (table.delete_many (λ k _. text_eq k id) rows)
      ≡ (if text_eq id j then none else table.find_unique j rows)
find-delete_key table id j rows =
    rw (table.find-delete_many j (λ k _. text_eq k id) rows)
      (ground (arith, text_eq_iff id j, text_eq_iff j id))

-- A `create` at a key that is free succeeds, and adds that row alone.
pub create_fresh :
    {K Row : Type 0} ⦃e : Eq K⦄ (table : Table K Row) (k : K) (row : Row) (rows : table.Rows)
    → table.find_unique k rows ≡ none
    → (rows' : table.Rows) × (table.create k row rows ≡ some rows')
      × ((j : K)
          → table.find_unique j rows' ≡ (if k === j then some row else table.find_unique j rows))
create_fresh table k row rows h = elim (Option-cases (table.create k row rows)) [
  | inl lost ↦ cc (table.find-create k k row rows, ap (Option.map (table.find_unique k)) lost, h)
  | inr (rows', done) ↦ (
    rows',
    done,
    λ j.
        some-injective (table.find_unique j rows')
          (if k === j then some row else table.find_unique j rows)
          (sym (ap (Option.map (table.find_unique j)) done)
            ∙ (table.find-create k j row rows ∙ rw h)),
  )
]
