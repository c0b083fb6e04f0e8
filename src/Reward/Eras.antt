-- ===== src/Reward/Eras.antt =====
-- Over any history of pallets/reward the volumes cover the rewards, so that no rotation divides by
-- zero.
use fusotao.Prelude.{ℕ, ◌<◌, ◌≡◌, ◌≢◌, inl, inr, List, [], ◌∷◌, arith, nat_eq, pair_eq, bytes_eq}
use fusotao.Support.Storage.{StorageMap, get, weight-le-sum_by}
use fusotao.Support.Dispatch.{RewardError, Result-cases, ok, err}
use fusotao.Reward.Types.{Reward, or_default, or_zero, State, Config, fail}
use fusotao.Reward.Claims.{rotated, rotate_legacy_reward, rotate_reward, set_era_rewards}
use fusotao.Reward.Liquidity.{put_liquidity, remove_liquidity}
use fusotao.Reward.History.{
  Call, after, apply, run, takes, sets_era_rewards, saves_trading, puts, consumes, removes,
}
use fusotao.Reward.Trading.{
  save_trading-IsFunded, remove_liquidity-IsFunded, consume_liquidity-IsFunded,
}
use fusotao.Reward.Backed.{
  pending_in, Covers, IsFunded, weight-or_default, alike-IsFunded, take_reward-IsFunded,
}

module _ (c : Config) where
  open c use {asset}

  apply-IsFunded :
      (now : ℕ) (call : Call) (s s' : State asset.Store)
      → apply c now call s ≡ ok s'
      → IsFunded s
      → IsFunded s'
  unfolding apply set_era_rewards put_liquidity
  apply-IsFunded now (takes origin) s s' h b = take_reward-IsFunded c now origin s s' h b
  apply-IsFunded now (sets_era_rewards origin n) s s' h b =
      alike-IsFunded c s s' (ground arith) (ground arith) (ground arith) (ground arith) b
  apply-IsFunded now (saves_trading trader vol at) s s' h b =
      save_trading-IsFunded c now trader vol at s s' h b
  apply-IsFunded now (puts maker symbol vol at) s s' h b =
      alike-IsFunded c s s' (ground arith) (ground arith) (ground arith) (ground arith) b
  apply-IsFunded now (consumes maker symbol vol current) s s' h b =
      consume_liquidity-IsFunded c now maker symbol vol current s s' h b
  apply-IsFunded now (removes maker symbol vol) s s' h b =
      elim (Result-cases (remove_liquidity c maker symbol vol s)) [
        | inl (e, failed) ↦ ground arith
        | inr ((n, s1), removed) ↦
            alike-IsFunded c s1 s' (ground arith) (ground arith) (ground arith) (ground arith)
              (remove_liquidity-IsFunded c maker symbol vol n s s1 removed b)
      ]

  after-IsFunded :
      (now : ℕ) (call : Call) (s : State asset.Store)
      → IsFunded s
      → IsFunded (after s (apply c now call s))
  after-IsFunded now call s b = elim (Result-cases (apply c now call s)) [
    | inl (e, failed) ↦ rw failed b
    | inr (s', done) ↦ rw done (apply-IsFunded now call s s' done b)
  ]

  -- In every era the volume that is recorded covers the sum of what the rewards still count in it,
  -- over any history of calls, failed ones included, from a state where it does; so it does for the
  -- deprecated maps.
  pub run-IsFunded :
      (calls : List (ℕ × Call)) (s : State asset.Store) → IsFunded s → IsFunded (run c calls s)
  unfolding run
  run-IsFunded [] s b = b
  run-IsFunded ((now, call) ∷ calls) s b =
      run-IsFunded calls (after s (apply c now call s)) (after-IsFunded now call s b)

  rotated-divide_by_zero :
      (now at vol total era_rewards : ℕ) (r : Reward)
      → rotated c now at vol total era_rewards r ≡ err (fail RewardError.divide_by_zero)
      → (0 < r.pending_vol) × (total ≡ 0)
  unfolding rotated
  rotated-divide_by_zero now at vol total era_rewards r h = ground arith

  rotated-divides :
      (now at vol era_rewards who : ℕ) (totals : StorageMap ℕ ℕ) (m : StorageMap ℕ Reward)
      → Covers totals m
      → let r = or_default (get who m) in
        rotated c now at vol (or_zero (get r.last_modify totals)) era_rewards r
        ≢ err (fail RewardError.divide_by_zero)
  rotated-divides now at vol era_rewards who totals m covers h =
      let r = or_default (get who m) in
      ground (
        arith,
        rotated-divide_by_zero now at vol (or_zero (get r.last_modify totals)) era_rewards r h,
        weight-le-sum_by (pending_in r.last_modify) who m,
        weight-or_default r.last_modify who (get who m),
        covers r.last_modify,
      )

  -- A rotation never fails with `DivideByZero`, in either generation of rewards, after any history of
  -- calls from a state whose volumes cover its rewards.
  pub run-divides :
      (calls : List (ℕ × Call)) (s : State asset.Store) (now at vol who : ℕ)
      → IsFunded s
      → (rotate_reward c now at vol who (run c calls s) ≢ err (fail RewardError.divide_by_zero))
        × (rotate_legacy_reward c now at vol who (run c calls s)
            ≢ err (fail RewardError.divide_by_zero))
  unfolding rotate_reward rotate_legacy_reward
  run-divides calls s now at vol who b =
      let s' = run c calls s in
      let (legacy, current) = run-IsFunded calls s b in
      let r = or_default (get who s'.marketing_rewards) in
      let q = or_default (get who s'.rewards) in
      (
        (λ h.
            elim (Result-cases (
              rotated c now at vol (or_zero (get r.last_modify s'.taken_liquidity)) s'.era_rewards
                r)) [
                  | inl (e, failed) ↦
                      rotated-divides now at vol s'.era_rewards who s'.taken_liquidity
                        s'.marketing_rewards current (ground arith)
                  | inr (x, done) ↦ ground arith
                ]),
        λ h.
            elim (Result-cases
              (rotated c now at vol (or_zero (get q.last_modify s'.volumes)) s'.era_rewards q)) [
                | inl (e, failed) ↦
                    rotated-divides now at vol s'.era_rewards who s'.volumes s'.rewards legacy
                      (ground arith)
                | inr (x, done) ↦ ground arith
              ],
      )
