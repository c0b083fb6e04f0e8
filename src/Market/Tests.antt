-- ===== src/Market/Tests.antt =====
-- The theorems on markets and brokers at a concrete state.
use fusotao.Prelude.{
  ℕ, ◌+◌, ◌-◌, ◌≡◌, refl, true, List, [], ◌∷◌, arith, nat_eq, pair_eq, bytes_eq, take,
}
use fusotao.Support.Storage.{get, insert, get-insert, sum_by}
use fusotao.Support.Dispatch.{ok, signed}
use fusotao.Support.Purse.{Purse, balance_of, purse}
use fusotao.Market.Types.{State, Config}
use fusotao.Market.Brokers.{register_broker}
use fusotao.Market.Pairs.{
  is_market_open, register_market, open_market, close_market, apply_for_token_listing,
}
use fusotao.Market.History.{
  Call, after, apply, run, registers_broker, deregisters_broker, applies_for_listing, opens, closes,
}
use fusotao.Market.Status.{IsSoundOption, is_market_open-close_market, run-IsSound}
use fusotao.Market.Stakes.{Transfers, IsCovered, run-IsCovered}

abbrev exchange : Config
exchange = record {
  asset = purse;
  broker_staking_threshold = 100;
  market_close_grace_period = 50;
  system_account = 999;
}

abbrev start : State Purse
start = record { brokers = []; markets = []; events = []; assets = (1000, (1, 500) ∷ []) }

-- A broker comes and goes, and a market is listed, opened and closed.
abbrev business : List (ℕ × Call)
business =
    (1, registers_broker (signed 1) 8 [] [])
    ∷ (1, registers_broker (signed 1) 9 [] [])
    ∷ (2, applies_for_listing (signed 5) 3 2 1 4 5 10)
    ∷ (3, opens 3 2 1 4 5 10)
    ∷ (4, closes 3 2 1)
    ∷ (5, deregisters_broker (signed 1) 8)
    ∷ []

purse-Transfers : Transfers purse
purse-Transfers from to amount moved s s' h n = ground (
  arith,
  get-insert from to (balance_of from s - amount) (insert to (balance_of to s + amount) s.1),
  get-insert from from (balance_of from s - amount) (insert to (balance_of to s + amount) s.1),
  get-insert to to (balance_of to s + amount) s.1,
)

run-IsCovered_example : IsCovered exchange (run exchange business start)
run-IsCovered_example =
    run-IsCovered exchange purse-Transfers business start
      ((λ e. ground arith), ((λ e. ground arith), (tt, (tt, (tt, ((λ e. ground arith), tt))))))
      (unfold sum_by in ground arith)

run-IsSound_example : IsSoundOption (get (3, (2, 1)) (run exchange business start).markets)
run-IsSound_example = run-IsSound exchange business start (λ k. unfold get in tt) (3, (2, 1))

abbrev opened : State Purse
opened = run exchange (take 4 business) start

abbrev closed_market : State Purse
closed_market = after opened (close_market exchange 3 2 1 4 opened)

closes_fine : close_market exchange 3 2 1 4 opened ≡ ok closed_market
unfolding run apply register_broker apply_for_token_listing register_market open_market close_market
    get insert
closes_fine = refl

is_market_open-close_market_example : is_market_open exchange 3 2 1 54 closed_market ≡ true
is_market_open-close_market_example =
    is_market_open-close_market exchange 3 2 1 4 54 opened closed_market closes_fine
