-- ===== src/Token/Tests.antt =====
-- Runs of pallets/token, and its theorems at concrete inputs.
use fusotao.Prelude.{
  ◌+◌, ◌*◌, ◌^◌, ◌≡◌, ◌≤◌, ◌<◌, refl, arith, List, [], ◌∷◌, Bool-cases, inl, inr, ◌==◌,
}
use fusotao.Support.Storage.{get, insert, remove, sum_by}
use fusotao.Support.Dispatch.{ok, err, signed, root, TokenError}
use fusotao.Support.Asset.{BalanceStatus}
use fusotao.Token.Types.{State, Event}
use fusotao.Token.Decimals.{
  transform_decimals_to_standard, transform_decimals_to_external, multiply_by_ten,
}
use fusotao.Token.Accounts.{
  transfer_token, reserve, unreserve, free_balance, reserved_balance, repatriate_reserved, fail,
}
use fusotao.Token.Supply.{
  do_mint, do_burn, issue, create, admit, mark_stable, transfer, grow_total, shrink_total,
}
use fusotao.Token.Invariant.{IsBacked}
use fusotao.Token.History.{
  issues, marks_stable, transfers, reserves, mints, burns, repatriates, run, step, Call,
}
use fusotao.Token.History.{run-IsBacked}
use fusotao.Token.Effects.{
  transfer_token-covered, unreserve-reserve, do_mint-fnd10, repatriate_reserved_self,
}
use fusotao.Token.Rounding.{
  transform_decimals_to_standard-eq, to_external-to_standard, to_standard-to_external,
}
use fusotao.Token.Sample.{Ledger, runtime, state, gold}

state-IsBacked : IsBacked state
unfolding get sum_by
state-IsBacked = record {
  backed = λ t. ground arith;
  bounded = λ t. ground arith;
  barren = λ t. elim (Bool-cases (1 == t)) [
    | inl e ↦ rw e tt
    | inr e ↦ elim (Bool-cases (2 == t)) [ inl f ↦ rw (e, f) refl | inr f ↦ rw (e, f) tt ]
  ];
  fresh = λ t h. ground arith;
  keyed = ground arith;
}

abbrev history : List Call
history =
    transfers (signed 7) 1 8 25
    ∷ reserves 1 8 20
    ∷ repatriates 1 8 7 5 BalanceStatus.free
    ∷ mints 1 9 3
    ∷ mints 2 9 3
    ∷ burns 1 7 1000
    ∷ marks_stable root 9
    ∷ issues (signed 9) gold
    ∷ []

run-IsBacked_example : IsBacked (run runtime history state)
run-IsBacked_example = run-IsBacked runtime history state (omega arith) state-IsBacked

covers : 25 ≤ free_balance runtime 1 7 state
unfolding free_balance get
covers = omega arith

transfer_token-covered_example :
    (s' : State Ledger) × (transfer_token runtime 7 1 25 8 state ≡ ok (25, s'))
    × (free_balance runtime 1 7 s' + 25 ≡ free_balance runtime 1 7 state)
    × (free_balance runtime 1 8 s' ≡ free_balance runtime 1 8 state + 25)
    × (reserved_balance runtime 1 7 s' ≡ reserved_balance runtime 1 7 state)
    × (reserved_balance runtime 1 8 s' ≡ reserved_balance runtime 1 8 state)
transfer_token-covered_example =
    transfer_token-covered runtime 7 1 25 8 state (omega arith) (omega arith) (omega arith) covers
      state-IsBacked

after_reserve : State Ledger
after_reserve = record state {
  balances =
      ((1, 7), record { free = 10; reserved = 60 })
      ∷ ((1, 8), record { free = 30; reserved = 0 })
      ∷ [];
  events = Event.token_reserved 1 7 50 ∷ [];
}

reserves_fifty : reserve runtime 1 7 50 state ≡ ok after_reserve
unfolding reserve get insert after_reserve
reserves_fifty = refl

unreserve-reserve_example :
    (s₂ : State Ledger) × (unreserve runtime 1 7 50 after_reserve ≡ ok s₂)
    × (s₂.balances ≡ state.balances)
unreserve-reserve_example =
    unreserve-reserve runtime 1 7 50 state after_reserve (omega arith) state-IsBacked reserves_fifty

do_mint-fnd10_example : do_mint runtime 2 9 5 state ≡ err (fail TokenError.amount_zero)
unfolding get
do_mint-fnd10_example =
    do_mint-fnd10 runtime 2 9 5 0 (b'a' ∷ b'u' ∷ []) state state-IsBacked refl (omega arith)

repatriates_fifty :
    repatriate_reserved runtime 1 7 7 50 BalanceStatus.reserved state ≡ ok after_reserve
unfolding repatriate_reserved reserve get insert after_reserve
repatriates_fifty = refl

repatriate_reserved_self_example :
    (reserved_balance runtime 1 7 after_reserve ≡ reserved_balance runtime 1 7 state + 50)
    × (free_balance runtime 1 7 after_reserve + 50 ≡ free_balance runtime 1 7 state)
repatriate_reserved_self_example =
    repatriate_reserved_self runtime 1 7 50 state after_reserve (omega arith) repatriates_fifty

transform_decimals_to_standard-eq_example :
    transform_decimals_to_standard 1_500_000 6 ≡ 1_500_000 * 10 ^ 12
transform_decimals_to_standard-eq_example =
    transform_decimals_to_standard-eq 1_500_000 6 (omega arith)

to_external-to_standard_example :
    transform_decimals_to_external (transform_decimals_to_standard 1_500_000 6) 6 ≡ 1_500_000
to_external-to_standard_example = to_external-to_standard 1_500_000 6 (omega arith) (omega arith)

to_standard-to_external_example :
    let back = transform_decimals_to_standard (transform_decimals_to_external 1_999 16) 16 in
    (back ≤ 1_999) × (1_999 < back + 10 ^ 2)
to_standard-to_external_example = to_standard-to_external 1_999 16 (omega arith) (omega arith)

-- The call of step `mints 1 9 3` credits three millionths of a token, in 18 decimals.
history_runs :
    (run runtime history state).balances
    ≡ ((1, 7), record { free = 40; reserved = 10 })
      ∷ ((1, 8), record { free = 35; reserved = 15 })
      ∷ ((1, 9), record { free = 3 * 10 ^ 12; reserved = 0 })
      ∷ []
unfolding run step issue create admit mark_stable transfer transfer_token reserve
    repatriate_reserved do_mint do_burn grow_total shrink_total transform_decimals_to_standard
    multiply_by_ten get insert remove
history_runs = refl
