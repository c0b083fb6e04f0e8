-- ===== src/Market/Pairs.antt =====
-- `impl MarketManager` of pallets/market/src/lib.rs: the trading pairs.
use fusotao.Prelude.{
  ℕ, Bool, true, false, ◌&&◌, Option, none, some, leb, nat_eq, pair_eq, bytes_eq, saturating_add32,
}
use fusotao.Support.Storage.{get, insert, contains_key}
use fusotao.Support.Dispatch.{
  MarketError, Result, ◌>>=◌, ◌>>◌, ensure, ok_or, Origin, ensure_signed, ok,
}
use fusotao.Market.Types.{
  MarketStatus, Market, Event, Pair, State, deposit_event, Config, fail, registered, open_, closed,
}

-- A market that is not open may still settle until the deadline of its closing.
abbrev pub is_available : ℕ → Market → Bool
is_available at p = elim p.status [
  | open_ ↦ true
  | registered ↦ false
  | closed ↦ elim p.unavailable_after [ none ↦ false | some deadline ↦ leb at deadline ]
]

abbrev pub is_registered : MarketStatus → Bool
is_registered registered = true
is_registered open_ = false
is_registered closed = false

-- The market that `register_market` and `open_market` write.
abbrev pub fresh_market : MarketStatus → ℕ → ℕ → ℕ → Market
fresh_market status base_scale quote_scale min_base = record {
  min_base = min_base;
  base_scale = base_scale;
  quote_scale = quote_scale;
  status = status;
  trading_rewards = true;
  liquidity_rewards = true;
  unavailable_after = none;
}

module _ (c : Config) where
  open c use {asset}

  abbrev pub liquidity_rewards_enabled : ℕ → ℕ → ℕ → State asset.Store → Bool
  liquidity_rewards_enabled dominator base quote s =
      let key : Pair = (dominator, (base, quote)) in
      elim (get key s.markets) [ none ↦ false | some p ↦ p.liquidity_rewards ]

  abbrev pub trading_rewards_enabled : ℕ → ℕ → ℕ → State asset.Store → Bool
  trading_rewards_enabled dominator base quote s =
      let key : Pair = (dominator, (base, quote)) in
      elim (get key s.markets) [ none ↦ false | some p ↦ p.trading_rewards ]

  unfoldable pub is_market_open : ℕ → ℕ → ℕ → ℕ → State asset.Store → Bool
  is_market_open dominator base quote at s =
      let key : Pair = (dominator, (base, quote)) in
      elim (get key s.markets) [ none ↦ false | some p ↦ is_available at p ]

  -- Only a market that is registered or not created yet may be written.
  abbrev pub ensure_registrable : Option Market → Result (Unit {0})
  ensure_registrable none = ok tt
  ensure_registrable (some p) =
      ensure (is_registered p.status) (fail MarketError.market_couldnt_update)

  unfoldable pub register_market :
      ℕ → ℕ → ℕ → ℕ → ℕ → ℕ → State asset.Store → Result (State asset.Store)
  register_market dominator base quote base_scale quote_scale min_base s = do
    let key : Pair = (dominator, (base, quote))
    ensure (asset.is_stable quote s.assets) (fail MarketError.unsupported_quote_currency)
    ensure (asset.exists base s.assets) (fail MarketError.token_not_found)
    ensure (leb base_scale 7 && leb quote_scale 7) (fail MarketError.market_scale_overflow)
    ensure_registrable (get key s.markets)
    ok (
        deposit_event (Event.market_registered dominator base quote base_scale quote_scale min_base)
          (record s {
            markets =
                insert key (fresh_market registered base_scale quote_scale min_base) s.markets;
          }))

  unfoldable pub open_market :
      ℕ → ℕ → ℕ → ℕ → ℕ → ℕ → State asset.Store → Result (State asset.Store)
  open_market dominator base quote base_scale quote_scale min_base s = do
    let key : Pair = (dominator, (base, quote))
    ensure (contains_key key s.markets) (fail MarketError.market_not_registered)
    ensure (leb base_scale 7 && leb quote_scale 7) (fail MarketError.market_scale_overflow)
    ok (
        deposit_event (Event.market_opened dominator base quote base_scale quote_scale min_base)
          (record s {
            markets = insert key (fresh_market open_ base_scale quote_scale min_base) s.markets;
          }))

  unfoldable pub close_market : ℕ → ℕ → ℕ → ℕ → State asset.Store → Result (State asset.Store)
  close_market dominator base quote now s = do
    let key : Pair = (dominator, (base, quote))
    p ← ok_or (get key s.markets) (fail MarketError.market_not_exists)
    ok (
        deposit_event (Event.market_closed dominator base quote) (record s {
          markets =
              insert key
                (record p {
                  status = closed;
                  unavailable_after = some (saturating_add32 now c.market_close_grace_period);
                })
                s.markets;
        }))

  unfoldable pub apply_for_token_listing :
      Origin → ℕ → ℕ → ℕ → ℕ → ℕ → ℕ → State asset.Store → Result (State asset.Store)
  unfolding register_market
  apply_for_token_listing origin dominator base quote base_scale quote_scale min_base s = do
    _ ← ensure_signed origin
    register_market dominator base quote base_scale quote_scale min_base s
