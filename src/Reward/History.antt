-- ===== src/Reward/History.antt =====
-- Histories of calls on pallets/reward, with the block each runs in. A failed call is undone.
use fusotao.Prelude.{ℕ, List, [], ◌∷◌}
use fusotao.Support.Dispatch.{Result, ◌>>=◌, Origin, ok, err}
use fusotao.Reward.Types.{Symbol, State, Config}
use fusotao.Reward.Claims.{take_reward, set_era_rewards}
use fusotao.Reward.Liquidity.{save_trading, put_liquidity, remove_liquidity, consume_liquidity}

-- The dispatchables, and what the verifier calls.
pub data Call : Type 0 where
  takes : Origin → Call
  sets_era_rewards : Origin → ℕ → Call
  saves_trading : ℕ → ℕ → ℕ → Call
  puts consumes : ℕ → Symbol → ℕ → ℕ → Call
  removes : ℕ → Symbol → ℕ → Call

abbrev pub after : {S : Type 0} → S → Result S → S
after s (ok s') = s'
after s (err e) = s

module _ (c : Config) where
  open c use {asset}

  unfoldable pub apply : ℕ → Call → State asset.Store → Result (State asset.Store)
  unfolding remove_liquidity
  apply now (takes origin) s = take_reward c now origin s
  apply now (sets_era_rewards origin n) s = set_era_rewards c origin n s
  apply now (saves_trading trader vol at) s = save_trading c now trader vol at s
  apply now (puts maker symbol vol at) s = ok (put_liquidity c maker symbol vol at s)
  apply now (consumes maker symbol vol current) s =
      consume_liquidity c now maker symbol vol current s
  apply now (removes maker symbol vol) s = remove_liquidity c maker symbol vol s >>= λ r. ok r.1

  unfoldable pub run : List (ℕ × Call) → State asset.Store → State asset.Store
  unfolding apply
  run [] s = s
  run ((now, call) ∷ calls) s = run calls (after s (apply now call s))
