-- ===== src/Reward/Claims.antt =====
-- Claims of pallets/reward/src/lib.rs, and the rotation of a reward from one era to the next.
use fusotao.Prelude.{
  ℕ, ◌+◌, ◌%◌, Option, none, some, ◌∷◌, ltb, ◌==◌, if◌then◌else◌, nat_eq, pair_eq, bytes_eq,
  u128_mod, checked_add,
}
use fusotao.Support.Storage.{get, insert, put}
use fusotao.Support.Dispatch.{
  RewardError, DispatchError, Result, ◌>>=◌, ◌>>◌, ensure, ok_or, Origin, ensure_signed, ok,
}
use fusotao.Reward.Types.{Reward, or_default, or_zero, Event, State, Config, fail, begin_of_era}

module _ (c : Config) where
  open c use {asset}

  -- The body that `rotate_reward` and `rotate_legacy_reward` share: the closure of `try_mutate` on one
  -- reward, with the total volume of the era of its last change.
  unfoldable pub rotated : ℕ → ℕ → ℕ → ℕ → ℕ → Reward → Result Reward
  rotated now at vol total_vol era_rewards r =
      if at == r.last_modify
      then (do
        pending ← ok_or (checked_add r.pending_vol vol) (fail RewardError.overflow)
        ok (record r { pending_vol = pending }))
      else if r.pending_vol == 0
      then ok (record r { pending_vol = vol; last_modify = at })
      else (do
        ensure (ltb 0 total_vol) (fail RewardError.divide_by_zero)
        let p = c.from_rational r.pending_vol total_vol
        let era_reward = if ltb c.reward_terminate_at now then 0 else era_rewards
        confirmed ←
            ok_or (checked_add r.confirmed (c.of_perquintill p era_reward))
              (fail RewardError.overflow)
        ok (record { confirmed = confirmed; pending_vol = vol; last_modify = at }))

  unfoldable pub rotate_legacy_reward :
      ℕ → ℕ → ℕ → ℕ → State asset.Store → Result (ℕ × State asset.Store)
  rotate_legacy_reward now at vol who s = do
    let r = or_default (get who s.rewards)
    r' ← rotated now at vol (or_zero (get r.last_modify s.volumes)) s.era_rewards r
    ok (r'.confirmed, record s { rewards = insert who r' s.rewards })

  unfoldable pub rotate_reward : ℕ → ℕ → ℕ → ℕ → State asset.Store → Result (ℕ × State asset.Store)
  rotate_reward now begin contribution who s = do
    let r = or_default (get who s.marketing_rewards)
    r' ←
        rotated now begin contribution (or_zero (get r.last_modify s.taken_liquidity)) s.era_rewards
          r
    ok (r'.confirmed, record s { marketing_rewards = insert who r' s.marketing_rewards })

  -- What a claim leaves of a reward.
  abbrev pub unless_settled : Reward → Option Reward
  unless_settled r = if ltb 0 r.pending_vol then some (record r { confirmed = 0 }) else none

  -- The mint of a claim, where there is something to mint. The plain `+=` wraps.
  unfoldable pub mint : ℕ → ℕ → asset.Store → Result asset.Store
  mint who confirmed a =
      if ltb 0 confirmed
      then asset.try_mutate_account asset.native_token_id who
          (λ b a'. do
            a'' ←
                asset.try_mutate_issuance asset.native_token_id
                  (λ v. ok_or (checked_add v confirmed) (fail RewardError.overflow)) a'
            ok (record b { free = (b.free + confirmed) % u128_mod }, a''))
          a
      else ok a

  unfoldable pub claim_legacy_reward :
      ℕ → ℕ → ℕ → State asset.Store → Result (ℕ × State asset.Store)
  unfolding rotate_legacy_reward mint
  claim_legacy_reward now who at s = do
    begin ← begin_of_era c at
    (confirmed, s') ← rotate_legacy_reward now begin 0 who s
    if confirmed == 0 then ok (0, s') else (do
      r ← ok_or (get who s'.rewards) (fail RewardError.reward_not_found)
      assets ← mint who r.confirmed s'.assets
      ok (
        r.confirmed,
        record s' { rewards = put who (unless_settled r) s'.rewards; assets = assets },
      ))

  unfoldable pub claim_reward : ℕ → ℕ → ℕ → State asset.Store → Result (ℕ × State asset.Store)
  unfolding rotate_reward mint
  claim_reward now who at s = do
    begin ← begin_of_era c at
    (confirmed, s') ← rotate_reward now begin 0 who s
    if confirmed == 0 then ok (0, s') else (do
      r ← ok_or (get who s'.marketing_rewards) (fail RewardError.reward_not_found)
      assets ← mint who r.confirmed s'.assets
      ok (
        r.confirmed,
        record s' {
          marketing_rewards = put who (unless_settled r) s'.marketing_rewards;
          assets = assets;
        },
      ))

  unfoldable pub take_reward : ℕ → Origin → State asset.Store → Result (State asset.Store)
  unfolding claim_legacy_reward claim_reward
  take_reward now origin s = do
    who ← ensure_signed origin
    (legacy, s1) ← claim_legacy_reward now who now s
    (reward, s2) ← claim_reward now who now s1
    total ← ok_or (checked_add reward legacy) (fail RewardError.overflow)
    ok (record s2 { events = Event.reward_claimed who total ∷ s2.events })

  unfoldable pub set_era_rewards : Origin → ℕ → State asset.Store → Result (State asset.Store)
  set_era_rewards origin era_rewards s = do
    ensure (c.is_treasury origin) DispatchError.bad_origin
    ok (record s {
      era_rewards = era_rewards;
      events = Event.era_rewards_updated era_rewards ∷ s.events;
    })
