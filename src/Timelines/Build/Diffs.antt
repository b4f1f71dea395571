-- ===== src/Timelines/Build/Diffs.antt =====
-- The changes that the items show add up.
use mathlib.Core.Bool.{decide}
use beefy_envio_balances_ind.Common.{
  ◌&&◌, get_or, ◌≡◌, refl, sym, ap, ◌∙◌, Bool, true, false, Option, none, some, List, [], ◌∷◌, ◌++◌,
  if◌then◌else◌, filter_by, Bool-cases, inl, inr, Text, Text-discrete,
}
use beefy_envio_balances_ind.Common.Int.{
  ℤ, pos, pos_part, neg_part, ◌+ℤ◌, int_laws, +ℤ_zero, zero_+ℤ, +ℤ_assoc,
}
use beefy_envio_balances_ind.Common.Dict.{lookup}
use beefy_envio_balances_ind.Common.Sums.{sum_entries, held, sum_entries-set}
use beefy_envio_balances_ind.Indexer.Event.{ContractKey, ContractKey-discrete}
use beefy_envio_balances_ind.Indexer.Store.{balance}
use beefy_envio_balances_ind.Timelines.Rows.{PricedRow, Entry}
use beefy_envio_balances_ind.Timelines.Build.{
  Group, GroupKey, GroupKey-discrete, product_of, key_of, is_row, Assembly, rows_in, rows_at,
  balance_at, add_row, assemble, no_rows, sum_deltas, add_entry, entries_of,
}
use beefy_envio_balances_ind.Timelines.Build.Grouping.{moved, total_of, balance_at-assemble}

abbrev pub entry_diff : Text → Entry → ℤ
entry_diff address entry = entry.diff

held-diff :
    (c : Text) (o : Option Entry) (fresh : Entry)
    → fresh.diff ≡ pos 0
    → held Text-discrete entry_diff c o ≡ (get_or o fresh).diff
held-diff c none fresh h = sym h
held-diff c (some entry) fresh h = refl

-- a part that is replaced by itself and a change
replaced : (s s' d x h v : ℤ) → s' +ℤ h ≡ s +ℤ v → h ≡ d → v ≡ d +ℤ x → s' ≡ s +ℤ x
replaced s s' d x h v e f g =
    let k : s' +ℤ d ≡ s +ℤ (d +ℤ x) = ap (λ z. s' +ℤ z) (sym f) ∙ e ∙ ap (λ z. s +ℤ z) g in
    omega (int_laws, ap pos_part k, ap neg_part k)

add_entry-sum :
    (m : List (Text × Entry)) (row : PricedRow)
    → sum_entries Text-discrete entry_diff (add_entry m row)
      ≡ sum_entries Text-discrete entry_diff m +ℤ row.delta
add_entry-sum m row =
    let found = lookup Text-discrete row.contract m in
    let fresh : Entry = record {
      entry_kind = row.contract_kind;
      diff = pos 0;
      balance_then = pos 0;
    } in
    let entry = get_or found fresh in
    let next : Entry = record entry {
      diff = entry.diff +ℤ row.delta;
      balance_then = row.shares_after;
    } in
    replaced (sum_entries Text-discrete entry_diff m)
      (sum_entries Text-discrete entry_diff (add_entry m row)) entry.diff row.delta
      (held Text-discrete entry_diff row.contract found) next.diff
      (sum_entries-set Text-discrete entry_diff row.contract next m)
      (held-diff row.contract found fresh refl) refl

entries_of-sum :
    (m : List (Text × Entry)) (rows : List PricedRow)
    → sum_entries Text-discrete entry_diff (entries_of m rows)
      ≡ sum_entries Text-discrete entry_diff m +ℤ sum_deltas rows
unfolding entries_of sum_deltas
entries_of-sum m [] = sym (+ℤ_zero (sum_entries Text-discrete entry_diff m))
entries_of-sum m (row ∷ rows) =
    let s = sum_entries Text-discrete entry_diff m in
    entries_of-sum (add_entry m row) rows
    ∙ ap (λ n. n +ℤ sum_deltas rows) (add_entry-sum m row)
    ∙ +ℤ_assoc s row.delta (sum_deltas rows)

-- the change of shares that an item shows
abbrev pub share_diff_of : Group → ℤ
share_diff_of group = sum_deltas (filter_by (is_row balance) group.rows)

-- the same, for a group of one product
abbrev pub product_diff : ContractKey → GroupKey → Group → ℤ
product_diff product key group =
    if decide (ContractKey-discrete key.0 product) then share_diff_of group else pos 0

sum_deltas-snoc :
    (rows : List PricedRow) (row : PricedRow)
    → sum_deltas (filter_by (is_row balance) (rows ++ row ∷ []))
      ≡ sum_deltas (filter_by (is_row balance) rows)
        +ℤ (if is_row balance row then row.delta else pos 0)
unfolding sum_deltas
sum_deltas-snoc [] row = elim (Bool-cases (is_row balance row)) [
  | inl e ↦ rw e (omega int_laws)
  | inr e ↦ rw e (omega int_laws)
]
sum_deltas-snoc (r ∷ rows) row =
    let change = if is_row balance row then row.delta else pos 0 in
    elim (Bool-cases (is_row balance r)) [
      | inl e ↦ rw e (
          ap (λ n. r.delta +ℤ n) (sum_deltas-snoc rows row)
          ∙ sym (+ℤ_assoc r.delta (sum_deltas (filter_by (is_row balance) rows)) change))
      | inr e ↦ rw e (sum_deltas-snoc rows row)
    ]

only_if :
    (b d : Bool) (s s' x : ℤ)
    → s' ≡ s +ℤ (if b then x else pos 0)
    → (if d then s' else pos 0) ≡ (if d then s else pos 0) +ℤ (if b && d then x else pos 0)
only_if true true s s' x h = h
only_if true false s s' x h = omega int_laws
only_if false true s s' x h = h
only_if false false s s' x h = omega int_laws

-- what a row adds to its group
product_diff-snoc :
    (p : ContractKey) (row : PricedRow) (rows : List PricedRow) (b : ℤ)
    → product_diff p (key_of row) (record { rows = rows ++ row ∷ []; balance_after = b })
      ≡ product_diff p (key_of row) (record { rows = rows; balance_after = b }) +ℤ moved p row
product_diff-snoc p row rows b =
    only_if (is_row balance row) (decide (ContractKey-discrete (product_of row) p))
      (sum_deltas (filter_by (is_row balance) rows))
      (sum_deltas (filter_by (is_row balance) (rows ++ row ∷ []))) row.delta
      (sum_deltas-snoc rows row)

held-rows :
    (p : ContractKey) (k : GroupKey) (o : Option Group) (b : ℤ)
    → held GroupKey-discrete (product_diff p) k o
      ≡ product_diff p k (record { rows = rows_in o; balance_after = b })
unfolding sum_deltas
held-rows p k none b = elim (Bool-cases (decide (ContractKey-discrete k.0 p))) [
  | inl d ↦ rw d refl
  | inr d ↦ rw d refl
]
held-rows p k (some g) b = refl

-- the changes of a product's items, together
abbrev pub diffs_of : ContractKey → Assembly → ℤ
diffs_of p a = sum_entries GroupKey-discrete (product_diff p) a.groups

diffs_of-add_row :
    (p : ContractKey) (a : Assembly) (row : PricedRow)
    → diffs_of p (add_row a row) ≡ diffs_of p a +ℤ moved p row
unfolding add_row
diffs_of-add_row p a row =
    let k = key_of row in
    let b = balance_at (product_of row) (add_row a row).balances in
    let old : Group = record { rows = rows_at k a.groups; balance_after = b } in
    let next : Group = record { rows = rows_at k a.groups ++ row ∷ []; balance_after = b } in
    replaced (diffs_of p a) (diffs_of p (add_row a row)) (product_diff p k old) (moved p row)
      (held GroupKey-discrete (product_diff p) k (lookup GroupKey-discrete k a.groups))
      (product_diff p k next) (sum_entries-set GroupKey-discrete (product_diff p) k next a.groups)
      (held-rows p k (lookup GroupKey-discrete k a.groups) b)
      (product_diff-snoc p row (rows_at k a.groups) b)

diffs_of-assemble :
    (p : ContractKey) (a : Assembly) (rows : List PricedRow)
    → diffs_of p (assemble a rows) ≡ diffs_of p a +ℤ total_of p rows
unfolding assemble
diffs_of-assemble p a [] = sym (+ℤ_zero (diffs_of p a))
diffs_of-assemble p a (row ∷ rows) =
    diffs_of-assemble p (add_row a row) rows
    ∙ ap (λ n. n +ℤ total_of p rows) (diffs_of-add_row p a row)
    ∙ +ℤ_assoc (diffs_of p a) (moved p row) (total_of p rows)

-- The changes that the items of a product show add up to the product's balance after the last row.
pub diffs_of-balance_at :
    (p : ContractKey) (rows : List PricedRow)
    → diffs_of p (assemble no_rows rows) ≡ balance_at p (assemble no_rows rows).balances
unfolding sum_entries lookup
diffs_of-balance_at p rows =
    diffs_of-assemble p no_rows rows ∙ sym (balance_at-assemble p no_rows rows)

-- The changes that an item shows of the contracts of its product add up to the change of shares that
-- the item shows.
pub entries_of-share_diff :
    (group : Group)
    → sum_entries Text-discrete entry_diff (entries_of [] (filter_by (is_row balance) group.rows))
      ≡ share_diff_of group
unfolding sum_entries
entries_of-share_diff group =
    entries_of-sum [] (filter_by (is_row balance) group.rows) ∙ zero_+ℤ (share_diff_of group)
