-- ===== src/Timelines/Actions/Listed.antt =====
-- Which actions an item lists.
use mathlib.Core.Bool.{decide_iff, false≢true}
use beefy_envio_balances_ind.Common.{
  ℕ, ◌+◌, ◌≤◌, ◌≡◌, refl, sym, ap, ◌∙◌, Bool, true, false, not, ◌&&◌, ◌||◌, Option, none, some,
  List, [], ◌∷◌, if◌then◌else◌, some_of, filter_by, Bool-cases, Option-cases, inl, inr, arith,
}
use beefy_envio_balances_ind.Timelines.Rows.{
  PricedRow, Action, deposit, withdraw, stake, unstake, transfer_in, transfer_out,
}
use beefy_envio_balances_ind.Timelines.Actions.{
  Action-discrete, is_action, includes, action_of, named, unique_after, explained, actions_of,
}

abbrev pub is_done : Action → Option Action → Bool
is_done a none = false
is_done a (some b) = is_action a b

-- the row does the action
abbrev pub does : Action → PricedRow → Bool
does a row = is_done a (action_of row)

-- some row does what a transfer belongs to
abbrev pub caused : List PricedRow → Action → Bool
caused rows a =
    (is_action a transfer_in && (some_of (does deposit) rows || some_of (does unstake) rows))
    || (is_action a transfer_out && (some_of (does withdraw) rows || some_of (does stake) rows))

abbrev pub count : Action → List Action → ℕ
count a [] = 0
count a (b ∷ actions) = (if is_action a b then 1 else 0) + count a actions

includes-named :
    (a : Action) (rows : List PricedRow) → includes a (named rows) ≡ some_of (does a) rows
unfolding named
includes-named a [] = refl
includes-named a (row ∷ rows) = elim (Option-cases (action_of row)) [
  | inl n ↦ rw (n, named) (includes-named a rows)
  | inr (b, e) ↦ rw (e, named) (ap (λ x. is_action a b || x) (includes-named a rows))
]

same_action : (a b : Action) → is_action a b ≡ true → a ≡ b
same_action a b h = (decide_iff (Action-discrete a b)).0 h

-- an action that is not `a` unless it is seen adds nothing, and one that is not seen adds itself
old_action :
    (t s u x : Bool) → (t ≡ true → s ≡ true) → (s || u) ≡ (s || x) → (s || u) ≡ (s || (t || x))
old_action t s u x h k = ground arith

new_action :
    (t s u x : Bool) → ((t || s) || u) ≡ ((t || s) || x) → (s || (t || u)) ≡ (s || (t || x))
new_action t s u x h = ground arith

kept_action :
    (t f x ta : Bool) → (t ≡ true → ta ≡ true) → f ≡ (x && ta) → (t || f) ≡ ((t || x) && ta)
kept_action t f x ta h k = ground arith

dropped_action : (t f x ta : Bool) → (t ≡ true → ta ≡ false) → f ≡ (x && ta) → f ≡ ((t || x) && ta)
dropped_action t f x ta h k = ground arith

includes-unique_after :
    (a : Action) (seen actions : List Action)
    → (includes a seen || includes a (unique_after seen actions))
      ≡ (includes a seen || includes a actions)
unfolding unique_after
includes-unique_after a seen [] = refl
includes-unique_after a seen (b ∷ actions) = elim (Bool-cases (includes b seen)) [
  | inl s ↦
      rw (s, unique_after)
        (old_action (is_action a b) (includes a seen) (includes a (unique_after seen actions))
          (includes a actions) (λ t. ap (λ c. includes c seen) (same_action a b t) ∙ s)
          (includes-unique_after a seen actions))
  | inr s ↦
      rw (s, unique_after)
        (new_action (is_action a b) (includes a seen) (includes a (unique_after (b ∷ seen) actions))
          (includes a actions) (includes-unique_after a (b ∷ seen) actions))
]

includes-filter_by :
    (a : Action) (test : Action → Bool) (actions : List Action)
    → includes a (filter_by test actions) ≡ (includes a actions && test a)
includes-filter_by a test [] = refl
includes-filter_by a test (b ∷ actions) =
    let same = λ (t : is_action a b ≡ true). ap test (same_action a b t) in
    let ih = includes-filter_by a test actions in
    elim (Bool-cases (test b)) [
      | inl k ↦ rw k (
          kept_action (is_action a b) (includes a (filter_by test actions)) (includes a actions)
            (test a) (λ t. same t ∙ k) ih)
      | inr k ↦ rw k (
          dropped_action (is_action a b) (includes a (filter_by test actions)) (includes a actions)
            (test a) (λ t. same t ∙ k) ih)
    ]

-- an action that is seen is not listed again, and one that is not, once
count-unique_after :
    (a : Action) (seen actions : List Action)
    → (count a (unique_after seen actions) ≤ 1)
      × (includes a seen ≡ true → count a (unique_after seen actions) ≡ 0)
unfolding unique_after
count-unique_after a seen [] = (omega arith, λ h. refl)
count-unique_after a seen (b ∷ actions) = elim (Bool-cases (includes b seen)) [
  | inl s ↦ rw (s, unique_after) (count-unique_after a seen actions)
  | inr s ↦
      let ih = count-unique_after a (b ∷ seen) actions in
      elim (Bool-cases (is_action a b)) [
        | inl t ↦
            let none_left = ih.1 (ap (λ c. c || includes a seen) t) in
            let unseen = ap (λ c. includes c seen) (same_action a b t) ∙ s in
            rw (s, unique_after, t)
              (omega (arith, none_left), λ h. absurd (false≢true (sym unseen ∙ h)))
        | inr t ↦
            rw (s, unique_after, t)
              (
                omega (arith, ih.0),
                λ h.
                    (let gone = ih.1 (ap (λ c. c || includes a seen) t ∙ h) in omega (arith, gone)),
              )
      ]
]

count-filter_by :
    (a : Action) (test : Action → Bool) (actions : List Action)
    → count a (filter_by test actions) ≤ count a actions
count-filter_by a test [] = omega arith
count-filter_by a test (b ∷ actions) =
    let ih = count-filter_by a test actions in
    elim (Bool-cases (test b)) [
      | inl k ↦ rw k (omega (arith, ih))
      | inr k ↦ rw k (omega (arith, ih))
    ]

includes_unique :
    (a : Action) (rows : List PricedRow)
    → includes a (unique_after [] (named rows)) ≡ some_of (does a) rows
includes_unique a rows = includes-unique_after a [] (named rows) ∙ includes-named a rows

explained-caused :
    (a : Action) (rows : List PricedRow)
    → explained (unique_after [] (named rows)) a ≡ caused rows a
explained-caused a rows =
    rw
      (
        includes_unique deposit rows,
        includes_unique unstake rows,
        includes_unique withdraw rows,
        includes_unique stake rows,
      )
      refl

-- An item lists an action once if some row of it does the action, and otherwise not at all, but for
-- a transfer in beside a deposit or an unstake, and a transfer out beside a withdrawal or a stake,
-- which it never lists.
pub actions_of-listed :
    (a : Action) (rows : List PricedRow)
    → (includes a (actions_of rows) ≡ (some_of (does a) rows && not (caused rows a)))
      × (count a (actions_of rows) ≤ 1)
unfolding actions_of
actions_of-listed a rows =
    let unique = unique_after [] (named rows) in
    let test = λ (b : Action). not (explained unique b) in
    (
      includes-filter_by a test unique
          ∙ ap (λ b. b && test a) (includes_unique a rows)
          ∙ ap (λ b. some_of (does a) rows && not b) (explained-caused a rows),
      omega (arith, count-filter_by a test unique, (count-unique_after a [] (named rows)).0),
    )
