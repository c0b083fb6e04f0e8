-- ===== src/Reward/Liquidity.antt =====
-- `impl Rewarding` of pallets/reward/src/lib.rs, and the deprecated `save_trading`.
use fusotao.Prelude.{
  ℕ, ◌+◌, ◌-◌, ◌*◌, ◌/◌, ◌%◌, min, max, none, some, ltb, ◌==◌, if◌then◌else◌, nat_eq, pair_eq,
  bytes_eq, u32_mod, u128_mod, checked_add, checked_sub,
}
use fusotao.Support.Storage.{StorageMap, get, insert, put}
use fusotao.Support.Dispatch.{
  RewardError, DispatchError, Result, ◌>>=◌, ◌>>◌, ensure, ok_or, ok, err,
}
use fusotao.Reward.Types.{or_default, or_zero, Symbol, State, Config, fail, begin_of_era}
use fusotao.Reward.Claims.{rotate_legacy_reward, rotate_reward}

module _ (c : Config) where
  open c use {asset}

  abbrev pub total_volume : ℕ → State asset.Store → Result ℕ
  total_volume at s = begin_of_era c at >>= λ begin. ok (or_zero (get begin s.trading_volumes))

  abbrev pub acked_reward : ℕ → State asset.Store → ℕ
  acked_reward who s = (or_default (get who s.marketing_rewards)).confirmed

  -- A mutation of a map of volumes.
  unfoldable pub add_volume : ℕ → ℕ → StorageMap ℕ ℕ → Result (StorageMap ℕ ℕ)
  add_volume at vol m = do
    v ← ok_or (checked_add (or_zero (get at m)) vol) (fail RewardError.overflow)
    ok (insert at v m)

  unfoldable pub save_trading : ℕ → ℕ → ℕ → ℕ → State asset.Store → Result (State asset.Store)
  unfolding add_volume rotate_legacy_reward
  save_trading now trader vol at s = if vol == 0 then ok s else (do
    begin ← begin_of_era c at
    volumes ← add_volume begin vol s.volumes
    (confirmed, s') ← rotate_legacy_reward c now begin vol trader (record s { volumes = volumes })
    ok s')

  unfoldable pub put_liquidity : ℕ → Symbol → ℕ → ℕ → State asset.Store → State asset.Store
  put_liquidity maker symbol vol at s = if vol == 0 then s else record s {
    liquidity_pool =
        insert (maker, symbol) (record { volume = vol; start_from = at }) s.liquidity_pool;
  }

  unfoldable pub remove_liquidity :
      ℕ → Symbol → ℕ → State asset.Store → Result (ℕ × State asset.Store)
  remove_liquidity maker symbol vol s = if vol == 0 then ok (0, s) else (do
    liquidity ← ok_or (get (maker, symbol) s.liquidity_pool) (fail RewardError.liquidity_not_found)
    left ← ok_or (checked_sub liquidity.volume vol) (fail RewardError.insufficient_liquidity)
    ok (
      liquidity.start_from,
      record s {
        liquidity_pool =
            put (maker, symbol)
              (if ltb 0 left then some (record liquidity { volume = left }) else none)
              s.liquidity_pool;
      },
    ))

  -- The contribution of liquidity that stood from block `start_from` on. The plain `-` and `*` wrap.
  unfoldable pub contribution_of : ℕ → ℕ → ℕ → Result ℕ
  contribution_of vol start_from current = do
    ensure (ltb 0 c.time_coefficient_zoom) DispatchError.panicked
    let duration = (current + u32_mod - start_from) % u32_mod
    ok (max (min duration c.era_duration / c.time_coefficient_zoom) 1 * vol % u128_mod)

  -- What follows where the liquidity could be removed.
  unfoldable pub consume_from : ℕ → ℕ → ℕ → ℕ → ℕ → State asset.Store → Result (State asset.Store)
  unfolding contribution_of add_volume rotate_reward
  consume_from now maker vol start_from current s = do
    begin ← begin_of_era c current
    contribution ← contribution_of vol start_from current
    taken ← add_volume begin contribution s.taken_liquidity
    traded ← add_volume begin vol s.trading_volumes
    (confirmed, s') ←
        rotate_reward c now begin contribution maker
          (record s { taken_liquidity = taken; trading_volumes = traded })
    ok s'

  -- Orders of the first version have no liquidity here, and are left alone.
  unfoldable pub consume_liquidity :
      ℕ → ℕ → Symbol → ℕ → ℕ → State asset.Store → Result (State asset.Store)
  unfolding remove_liquidity consume_from
  consume_liquidity now maker symbol vol current s = elim (remove_liquidity maker symbol vol s) [
    | err e ↦ ok s
    | ok (start_from, s') ↦ consume_from now maker vol start_from current s'
  ]
