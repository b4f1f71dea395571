-- ===== src/Timelines/Actions.antt =====
-- The actions of an item: `actionsOf` of apps/api/src/timeline/build.ts.
pub mod Listed
use mathlib.Core.Bool.{decide}
use beefy_envio_balances_ind.Common.{
  ℕ, zero, suc, Bool, true, false, not, ◌&&◌, ◌||◌, Option, none, some, List, [], ◌∷◌,
  if◌then◌else◌, some_of, filter_by,
}
use beefy_envio_balances_ind.Common.Int.{ℤ, pos, negsuc, ltb_ℤ}
use beefy_envio_balances_ind.Indexer.Store.{
  TimelineKind, balance, clm_deposit, clm_withdraw, claim, mint, burn, Source, blank, transfer,
  boost_stake,
}
use beefy_envio_balances_ind.Timelines.Rows.{
  PricedRow, Action, deposit, withdraw, claim_reward, stake, unstake, transfer_in, transfer_out,
}

unfoldable pub Action-discrete : Discrete Action
Action-discrete = hlevel

abbrev pub is_action : Action → Action → Bool
is_action a b = decide (Action-discrete a b)

-- `actions.includes(a)`
abbrev pub includes : Action → List Action → Bool
includes a = some_of (is_action a)

-- the action of a move by its source and sign; none for a row that moves nothing
abbrev pub move_of : Source → ℤ → Option Action
move_of source (pos zero) = none
move_of boost_stake (pos (suc _)) = some stake
move_of _ (pos (suc _)) = some transfer_in
move_of boost_stake (negsuc _) = some unstake
move_of _ (negsuc _) = some transfer_out

-- what the loop pushes for a row
unfoldable pub action_of : PricedRow → Option Action
action_of row = elim row.kind [
  | clm_deposit ↦ some deposit
  | mint ↦ some deposit
  | clm_withdraw ↦ some withdraw
  | burn ↦ some withdraw
  | claim ↦ some claim_reward
  | balance ↦ move_of row.source row.delta
]

unfoldable pub named : List PricedRow → List Action
named [] = []
named (row ∷ rows) = elim (action_of row) [ none ↦ named rows | some action ↦ action ∷ named rows ]

-- `new Set(actions)`, past those that are seen
unfoldable pub unique_after : List Action → List Action → List Action
unique_after seen [] = []
unique_after seen (a ∷ actions) = elim (includes a seen) [
  | true ↦ unique_after seen actions
  | false ↦ a ∷ unique_after (a ∷ seen) actions
]

-- whether a transfer belongs to another action
abbrev pub explained : List Action → Action → Bool
explained unique a =
    (is_action a transfer_in && (includes deposit unique || includes unstake unique))
    || (is_action a transfer_out && (includes withdraw unique || includes stake unique))

unfoldable pub actions_of : List PricedRow → List Action
actions_of rows =
    let unique = unique_after [] (named rows) in filter_by (λ a. not (explained unique a)) unique
