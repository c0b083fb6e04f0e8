-- ===== src/Reward/Trading.antt =====
-- The volume of an era covers the rewards when liquidity is consumed, or a trade is saved:
-- pallets/reward.
use fusotao.Prelude.{ℕ, ◌-◌, ◌%◌, ◌≡◌, inl, inr, arith, ◌==◌, Bool-cases, nat_eq, pair_eq, bytes_eq}
use fusotao.Support.Storage.{get, insert}
use fusotao.Support.Dispatch.{Result-cases, ok}
use fusotao.Reward.Types.{or_default, or_zero, Symbol, State, Config}
use fusotao.Reward.Claims.{rotated, rotate_legacy_reward, rotate_reward}
use fusotao.Reward.Liquidity.{
  add_volume, save_trading, remove_liquidity, contribution_of, consume_from, consume_liquidity,
}
use fusotao.Reward.Backed.{IsFunded, rotated-Covers, add_volume-grown, alike-IsFunded}

module _ (c : Config) where
  open c use {asset}

  pub save_trading-IsFunded :
      (now trader vol at : ℕ) (s s' : State asset.Store)
      → save_trading c now trader vol at s ≡ ok s'
      → IsFunded s
      → IsFunded s'
  unfolding save_trading rotate_legacy_reward
  save_trading-IsFunded now trader vol at s s' h b =
      let r0 = or_default (get trader s.rewards) in
      elim (Bool-cases (vol == 0)) [
        | inl nothing ↦
            alike-IsFunded c s s' (ground arith) (ground arith) (ground arith) (ground arith) b
        | inr some_ ↦ elim (Result-cases (add_volume c (at - at % c.era_duration) vol s.volumes)) [
          | inl (e, failed) ↦ ground arith
          | inr (volumes, grown) ↦
              elim (Result-cases (
                rotated c now (at - at % c.era_duration) vol (or_zero (get r0.last_modify volumes))
                  s.era_rewards r0)) [
                    | inl (e, failed) ↦ ground arith
                    | inr (r, done) ↦
                        alike-IsFunded c
                          (record s { volumes = volumes; rewards = insert trader r s.rewards }) s'
                          (ground arith) (ground arith) (ground arith) (ground arith)
                          (
                            rotated-Covers c now (at - at % c.era_duration) vol
                                (or_zero (get r0.last_modify volumes)) s.era_rewards trader r
                                s.volumes volumes s.rewards done
                                (λ era.
                                  add_volume-grown c (at - at % c.era_duration) vol era s.volumes
                                    volumes grown)
                                b.0,
                            b.1,
                          )
                  ]
        ]
      ]

  consume_from-IsFunded :
      (now maker vol start_from current : ℕ) (s s' : State asset.Store)
      → consume_from c now maker vol start_from current s ≡ ok s'
      → IsFunded s
      → IsFunded s'
  unfolding consume_from rotate_reward
  consume_from-IsFunded now maker vol start_from current s s' h b =
      let r0 = or_default (get maker s.marketing_rewards) in
      let begin = current - current % c.era_duration in
      elim (Result-cases (contribution_of c vol start_from current)) [
        | inl (e, failed) ↦ ground arith
        | inr (n, counted) ↦ elim (Result-cases (add_volume c begin n s.taken_liquidity)) [
          | inl (e, failed) ↦ ground arith
          | inr (taken, grown) ↦ elim (Result-cases (add_volume c begin vol s.trading_volumes)) [
            | inl (e, failed) ↦ ground arith
            | inr (traded, more) ↦
                elim (Result-cases
                  (rotated c now begin n (or_zero (get r0.last_modify taken)) s.era_rewards r0)) [
                    | inl (e, failed) ↦ ground arith
                    | inr (r, done) ↦
                        alike-IsFunded c
                          (record s {
                            taken_liquidity = taken;
                            marketing_rewards = insert maker r s.marketing_rewards;
                          })
                          s' (ground arith) (ground arith) (ground arith) (ground arith)
                          (
                            b.0,
                            rotated-Covers c now begin n (or_zero (get r0.last_modify taken))
                                s.era_rewards maker r s.taken_liquidity taken s.marketing_rewards
                                done
                                (λ era.
                                  add_volume-grown c begin n era s.taken_liquidity taken grown)
                                b.1,
                          )
                  ]
          ]
        ]
      ]

  pub remove_liquidity-IsFunded :
      (maker : ℕ) (symbol : Symbol) (vol start_from : ℕ) (s s' : State asset.Store)
      → remove_liquidity c maker symbol vol s ≡ ok (start_from, s')
      → IsFunded s
      → IsFunded s'
  unfolding remove_liquidity
  remove_liquidity-IsFunded maker symbol vol start_from s s' h b =
      alike-IsFunded c s s' (ground arith) (ground arith) (ground arith) (ground arith) b

  pub consume_liquidity-IsFunded :
      (now maker : ℕ) (symbol : Symbol) (vol current : ℕ) (s s' : State asset.Store)
      → consume_liquidity c now maker symbol vol current s ≡ ok s'
      → IsFunded s
      → IsFunded s'
  unfolding consume_liquidity
  consume_liquidity-IsFunded now maker symbol vol current s s' h b =
      elim (Result-cases (remove_liquidity c maker symbol vol s)) [
        | inl (e, failed) ↦
            alike-IsFunded c s s' (ground arith) (ground arith) (ground arith) (ground arith) b
        | inr ((start_from, s1), removed) ↦
            consume_from-IsFunded now maker vol start_from current s1 s' (ground arith)
              (remove_liquidity-IsFunded maker symbol vol start_from s s1 removed b)
      ]
