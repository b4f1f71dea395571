-- ===== src/Timelines/Build/Grouping.antt =====
-- The groups of an account's rows, and the running balances of its products.
use mathlib.Core.Bool.{decide, decide_iff}
use mathlib.Core.Path.{subst}
use mathlib.Core.Logic.{if_pos, if_neg}
use mathlib.Core.List.{
  Mem, mem-append_left, mem-append_right, mem-cons_self, append_assoc, append-nil,
}
use mathlib.Core.Option.{none-ne-some, some-injective}
use beefy_envio_balances_ind.Common.{
  ◌&&◌, get_or, decide-cases, ◌≡◌, ◌≢◌, refl, sym, ap, ◌∙◌, Bool, true, some, List, [], ◌∷◌, ◌++◌,
  if◌then◌else◌, filter_by, Bool-cases, Option-cases, inl, inr, All,
}
use beefy_envio_balances_ind.Common.Int.{ℤ, pos, ◌+ℤ◌, +ℤ_zero, zero_+ℤ, +ℤ_assoc}
use beefy_envio_balances_ind.Common.Dict.{lookup, set, lookup-set_self, lookup-set_ne}
use beefy_envio_balances_ind.Indexer.Event.{ContractKey, ContractKey-discrete}
use beefy_envio_balances_ind.Indexer.Store.{balance}
use beefy_envio_balances_ind.Timelines.Rows.{PricedRow, Platform}
use beefy_envio_balances_ind.Timelines.Build.{
  Group, GroupKey, GroupKey-discrete, product_of, key_of, is_row, Assembly, balance_at, rows_in,
  rows_at, add_row, assemble, no_rows, find_last, item_of, items_of, build_timeline,
}

-- what a row moves of the balance of a product
abbrev pub moved : ContractKey → PricedRow → ℤ
moved product row =
    if is_row balance row && decide (ContractKey-discrete (product_of row) product)
    then row.delta
    else pos 0

-- what rows move of it together
abbrev pub total_of : ContractKey → List PricedRow → ℤ
total_of product [] = pos 0
total_of product (row ∷ rows) = moved product row +ℤ total_of product rows

abbrev pub is_key : GroupKey → PricedRow → Bool
is_key key row = decide (GroupKey-discrete (key_of row) key)

total_of-append :
    (p : ContractKey) (xs ys : List PricedRow)
    → total_of p (xs ++ ys) ≡ total_of p xs +ℤ total_of p ys
total_of-append p [] ys = sym (zero_+ℤ (total_of p ys))
total_of-append p (x ∷ xs) ys =
    ap (λ n. moved p x +ℤ n) (total_of-append p xs ys)
    ∙ sym (+ℤ_assoc (moved p x) (total_of p xs) (total_of p ys))

balance_at-set_self :
    (p q : ContractKey) (v : ℤ) (m : List (ContractKey × ℤ))
    → q ≡ p
    → balance_at p (set ContractKey-discrete q v m) ≡ v
balance_at-set_self p q v m e =
    ap (λ o. get_or o (pos 0))
      (ap (λ k. lookup ContractKey-discrete k (set ContractKey-discrete q v m)) (sym e)
        ∙ lookup-set_self ContractKey-discrete q v m)

pub balance_at-add_row :
    (p : ContractKey) (a : Assembly) (row : PricedRow)
    → balance_at p (add_row a row).balances ≡ balance_at p a.balances +ℤ moved p row
unfolding add_row
balance_at-add_row p a row =
    let q = product_of row in
    elim (Bool-cases (is_row balance row)) [
      | inr b ↦ rw (b, add_row) (sym (+ℤ_zero (balance_at p a.balances)))
      | inl b ↦ elim (decide-cases (ContractKey-discrete q p)) [
        | inl (d, e) ↦
            rw (b, d, add_row)
              (balance_at-set_self p q (balance_at q a.balances +ℤ row.delta) a.balances e
                ∙ ap (λ k. balance_at k a.balances +ℤ row.delta) e)
        | inr (d, n) ↦
            rw (b, d, add_row)
              (ap (λ o. get_or o (pos 0))
                  (lookup-set_ne ContractKey-discrete q p (balance_at q a.balances +ℤ row.delta)
                    a.balances n)
                ∙ sym (+ℤ_zero (balance_at p a.balances)))
      ]
    ]

pub balance_at-assemble :
    (p : ContractKey) (a : Assembly) (rows : List PricedRow)
    → balance_at p (assemble a rows).balances ≡ balance_at p a.balances +ℤ total_of p rows
unfolding assemble
balance_at-assemble p a [] = sym (+ℤ_zero (balance_at p a.balances))
balance_at-assemble p a (row ∷ rows) =
    balance_at-assemble p (add_row a row) rows
    ∙ ap (λ n. n +ℤ total_of p rows) (balance_at-add_row p a row)
    ∙ +ℤ_assoc (balance_at p a.balances) (moved p row) (total_of p rows)

lookup-add_row :
    (a : Assembly) (row : PricedRow)
    → lookup GroupKey-discrete (key_of row) (add_row a row).groups
      ≡ some (record {
        rows = rows_at (key_of row) a.groups ++ row ∷ [];
        balance_after = balance_at (product_of row) (add_row a row).balances;
      })
unfolding add_row
lookup-add_row a row = lookup-set_self GroupKey-discrete (key_of row) _ a.groups

lookup-add_row_ne :
    (k : GroupKey) (a : Assembly) (row : PricedRow)
    → key_of row ≢ k
    → lookup GroupKey-discrete k (add_row a row).groups ≡ lookup GroupKey-discrete k a.groups
unfolding add_row
lookup-add_row_ne k a row n = lookup-set_ne GroupKey-discrete (key_of row) k _ a.groups n

rows_at-add_row :
    (k : GroupKey) (a : Assembly) (row : PricedRow)
    → rows_at k (add_row a row).groups
      ≡ rows_at k a.groups ++ (if is_key k row then row ∷ [] else [])
rows_at-add_row k a row = elim (decide-cases (GroupKey-discrete (key_of row) k)) [
  | inl (d, e) ↦ rw d (
      ap (λ j. rows_at j (add_row a row).groups) (sym e)
      ∙ ap rows_in (lookup-add_row a row)
      ∙ ap (λ j. rows_at j a.groups ++ row ∷ []) e)
  | inr (d, n) ↦
      rw d (ap rows_in (lookup-add_row_ne k a row n) ∙ sym (append-nil (rows_at k a.groups)))
]

filter-cons :
    (k : GroupKey) (row : PricedRow) (rows : List PricedRow)
    → filter_by (is_key k) (row ∷ rows)
      ≡ (if is_key k row then row ∷ [] else []) ++ filter_by (is_key k) rows
filter-cons k row rows = elim (Bool-cases (is_key k row)) [ inl e ↦ rw e refl | inr e ↦ rw e refl ]

rows_at-assemble :
    (k : GroupKey) (a : Assembly) (rows : List PricedRow)
    → rows_at k (assemble a rows).groups ≡ rows_at k a.groups ++ filter_by (is_key k) rows
unfolding assemble
rows_at-assemble k a [] = sym (append-nil (rows_at k a.groups))
rows_at-assemble k a (row ∷ rows) =
    let one = if is_key k row then row ∷ [] else [] in
    rows_at-assemble k (add_row a row) rows
    ∙ ap (λ rs. rs ++ filter_by (is_key k) rows) (rows_at-add_row k a row)
    ∙ append_assoc (rows_at k a.groups) one (filter_by (is_key k) rows)
    ∙ ap (λ rs. rows_at k a.groups ++ rs) (sym (filter-cons k row rows))

assemble-append :
    (a : Assembly) (xs ys : List PricedRow) → assemble a (xs ++ ys) ≡ assemble (assemble a xs) ys
unfolding assemble
assemble-append a [] ys = refl
assemble-append a (x ∷ xs) ys = assemble-append (add_row a x) xs ys

-- rows of other groups leave a group as it is
lookup-assemble_ne :
    (k : GroupKey) (a : Assembly) (rows : List PricedRow)
    → All (λ row. key_of row ≢ k) rows
    → lookup GroupKey-discrete k (assemble a rows).groups ≡ lookup GroupKey-discrete k a.groups
unfolding assemble
lookup-assemble_ne k a [] h = refl
lookup-assemble_ne k a (row ∷ rows) (n, h) =
    lookup-assemble_ne k (add_row a row) rows h ∙ lookup-add_row_ne k a row n

filter_by-append :
    (k : GroupKey) (xs ys : List PricedRow)
    → filter_by (is_key k) (xs ++ ys) ≡ filter_by (is_key k) xs ++ filter_by (is_key k) ys
filter_by-append k [] ys = refl
filter_by-append k (x ∷ xs) ys = elim (Bool-cases (is_key k x)) [
  | inl e ↦ rw e (ap (λ rs. x ∷ rs) (filter_by-append k xs ys))
  | inr e ↦ rw e (filter_by-append k xs ys)
]

-- the rows of the last row's group, that row last
filter_by-last :
    (rows : List PricedRow) (row : PricedRow)
    → filter_by (is_key (key_of row)) (rows ++ row ∷ [])
      ≡ filter_by (is_key (key_of row)) rows ++ row ∷ []
filter_by-last rows row =
    let k = key_of row in
    let here : is_key k row ≡ true = (decide_iff (GroupKey-discrete k k)).1 refl in
    filter_by-append k rows (row ∷ [])
    ∙ ap (λ b. filter_by (is_key k) rows ++ (if b then row ∷ [] else [])) here

-- The group that the rows `older` and `row` leave, when no newer row is of it.
abbrev pub group_of : List PricedRow → PricedRow → Group
group_of older row = record {
  rows = filter_by (is_key (key_of row)) (older ++ row ∷ []);
  balance_after = total_of (product_of row) (older ++ row ∷ []);
}

lookup-assemble :
    (older : List PricedRow) (row : PricedRow) (newer : List PricedRow)
    → All (λ r. key_of r ≢ key_of row) newer
    → lookup GroupKey-discrete (key_of row) (assemble no_rows (older ++ row ∷ newer)).groups
      ≡ some (group_of older row)
unfolding assemble lookup
lookup-assemble older row newer h =
    let k = key_of row in
    let p = product_of row in
    let a = assemble no_rows older in
    let rows : rows_at k a.groups ++ row ∷ [] ≡ filter_by (is_key k) (older ++ row ∷ []) =
      ap (λ rs. rs ++ row ∷ []) (rows_at-assemble k no_rows older)
      ∙ sym (filter_by-last older row) in
    let total : balance_at p (add_row a row).balances ≡ total_of p (older ++ row ∷ []) =
      balance_at-add_row p a row
      ∙ ap (λ n. n +ℤ moved p row)
          (balance_at-assemble p no_rows older ∙ zero_+ℤ (total_of p older))
      ∙ ap (λ n. total_of p older +ℤ n) (sym (+ℤ_zero (moved p row)))
      ∙ sym (total_of-append p older (row ∷ [])) in
    ap (λ (b : Assembly). lookup GroupKey-discrete k b.groups)
      (assemble-append no_rows older (row ∷ newer))
    ∙ lookup-assemble_ne k (add_row a row) newer h
    ∙ lookup-add_row a row
    ∙ (λ i. some (record { rows = rows i; balance_after = total i }))

find_last-snoc :
    (rows : List PricedRow) (row : PricedRow) → find_last (λ r. true) (rows ++ row ∷ []) ≡ some row
unfolding find_last
find_last-snoc [] row = refl
find_last-snoc (r ∷ rows) row = rw (find_last-snoc rows row) refl

items_of-Mem :
    (platform : Platform) (k : GroupKey) (g : Group) (last : PricedRow)
    (groups : List (GroupKey × Group))
    → lookup GroupKey-discrete k groups ≡ some g
    → find_last (λ r. true) g.rows ≡ some last
    → Mem (item_of platform g last) (items_of platform groups)
unfolding lookup items_of
items_of-Mem platform k g last [] e f = absurd (none-ne-some g e)
items_of-Mem platform k g last ((j, found) ∷ groups) e f = elim (GroupKey-discrete j k) [
  | yes p ↦
      let same : found ≡ g = some-injective found g (rw (if_pos _ p) at e) in
      let f' : find_last (λ r. true) found.rows ≡ some last =
        ap (λ (x : Group). find_last (λ r. true) x.rows) same ∙ f in
      subst (λ x. Mem (item_of platform x last) (items_of platform ((j, found) ∷ groups))) same
        (rw (f', items_of) (mem-append_right (items_of platform groups) mem-cons_self))
  | no n ↦
      let rest = items_of-Mem platform k g last groups (rw (if_neg _ n) at e) f in
      elim (Option-cases (find_last (λ r. true) found.rows)) [
        | inl m ↦ rw (m, items_of) rest
        | inr (other, m) ↦ rw (m, items_of) (mem-append_left _ rest)
      ]
]

-- The item of a transaction and product stands in the timeline: of the rows in which `row` is the
-- last of its transaction and product, it has all of that transaction and product up to `row`, in
-- their order, and as its balance what all rows of the product up to `row` move together.
pub build_timeline-Mem :
    (platform : Platform) (older : List PricedRow) (row : PricedRow) (newer : List PricedRow)
    → All (λ r. key_of r ≢ key_of row) newer
    → Mem
        (item_of platform (group_of older row) row)
        (build_timeline platform (older ++ row ∷ newer))
build_timeline-Mem platform older row newer h =
    items_of-Mem platform (key_of row) (group_of older row) row
      (assemble no_rows (older ++ row ∷ newer)).groups (lookup-assemble older row newer h)
      (ap (find_last (λ r. true)) (filter_by-last older row)
        ∙ find_last-snoc (filter_by (is_key (key_of row)) older) row)
