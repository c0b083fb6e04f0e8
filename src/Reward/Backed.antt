-- ===== src/Reward/Backed.antt =====
-- The volume of an era covers what the rewards of pallets/reward still count in it.
use fusotao.Prelude.{
  ℕ, ◌+◌, ◌-◌, ◌%◌, ◌≤◌, ◌≡◌, refl, ◌⊎◌, inl, inr, Option, none, some, arith, ◌==◌, if◌then◌else◌,
  nat_eq, pair_eq, bytes_eq,
}
use fusotao.Support.Storage.{
  StorageMap, get, insert, put, get-insert, get-insert_self, sum_by, weight, sum_by-put,
}
use fusotao.Support.Dispatch.{Origin, Result-cases, ok, root, unsigned, signed}
use fusotao.Reward.Types.{Reward, or_default, or_zero, State, Config}
use fusotao.Reward.Claims.{
  rotated, rotate_legacy_reward, rotate_reward, unless_settled, mint, claim_legacy_reward,
  claim_reward, take_reward,
}
use fusotao.Reward.Liquidity.{add_volume}

-- What a reward still counts in an era.
abbrev pub pending_in : ℕ → ℕ → Reward → ℕ
pending_in era who r = if r.last_modify == era then r.pending_vol else 0

abbrev pub Covers : StorageMap ℕ ℕ → StorageMap ℕ Reward → Type 0
Covers totals rewards = (era : ℕ) → sum_by (pending_in era) rewards ≤ or_zero (get era totals)

abbrev pub IsFunded : {Store : Type 0} → State Store → Type 0
IsFunded s = Covers s.volumes s.rewards × Covers s.taken_liquidity s.marketing_rewards

pub weight-or_default :
    (era who : ℕ) (o : Option Reward)
    → weight (pending_in era) who o ≡ pending_in era who (or_default o)
weight-or_default era who none = ground arith
weight-or_default era who (some r) = refl

module _ (c : Config) where
  open c use {asset}

  -- A rotation counts its volume in its era, and nothing more in any.
  rotated-pending :
      (now at vol total era_rewards era who : ℕ) (r r' : Reward)
      → rotated c now at vol total era_rewards r ≡ ok r'
      → pending_in era who r' ≤ pending_in era who r + (if at == era then vol else 0)
  unfolding rotated
  rotated-pending now at vol total era_rewards era who r r' h = ground arith

  pub rotated-Covers :
      (now at vol total era_rewards who : ℕ) (r' : Reward) (totals totals' : StorageMap ℕ ℕ)
      (m : StorageMap ℕ Reward)
      → rotated c now at vol total era_rewards (or_default (get who m)) ≡ ok r'
      → ((era : ℕ)
          → or_zero (get era totals) + (if at == era then vol else 0) ≤ or_zero (get era totals'))
      → Covers totals m
      → Covers totals' (insert who r' m)
  rotated-Covers now at vol total era_rewards who r' totals totals' m h grown covers era = omega (
    arith,
    sum_by-put (pending_in era) who (some r') m,
    weight-or_default era who (get who m),
    rotated-pending now at vol total era_rewards era who (or_default (get who m)) r' h,
    covers era,
    grown era,
  )

  settled-Covers :
      (who : ℕ) (r : Reward) (totals : StorageMap ℕ ℕ) (m : StorageMap ℕ Reward)
      → get who m ≡ some r
      → Covers totals m
      → Covers totals (put who (unless_settled c r) m)
  settled-Covers who r totals m found covers era =
      ground (arith, sum_by-put (pending_in era) who (unless_settled c r) m, covers era)

  pub add_volume-grown :
      (at vol era : ℕ) (m m' : StorageMap ℕ ℕ)
      → add_volume c at vol m ≡ ok m'
      → or_zero (get era m) + (if at == era then vol else 0) ≤ or_zero (get era m')
  unfolding add_volume
  add_volume-grown at vol era m m' h =
      ground (arith, get-insert at era (or_zero (get at m) + vol) m)

  -- What a claim does to the two maps of rewards.
  abbrev IsClaimed : ℕ → ℕ → ℕ → ℕ → ℕ → StorageMap ℕ Reward → StorageMap ℕ Reward → Type 0
  IsClaimed now at who total era_rewards m m' =
      (r : Reward) × (rotated c now at 0 total era_rewards (or_default (get who m)) ≡ ok r)
      × ((m' ≡ insert who r m) ⊎ (m' ≡ put who (unless_settled c r) (insert who r m)))

  claim_legacy_reward-IsClaimed :
      (now at who n : ℕ) (s s' : State asset.Store)
      → claim_legacy_reward c now who at s ≡ ok (n, s')
      → IsClaimed now
          (at - at % c.era_duration)
          who
          (or_zero (get (or_default (get who s.rewards)).last_modify s.volumes))
          s.era_rewards
          s.rewards
          s'.rewards
        × (s'.volumes ≡ s.volumes)
        × (s'.taken_liquidity ≡ s.taken_liquidity)
        × (s'.marketing_rewards ≡ s.marketing_rewards)
  unfolding claim_legacy_reward rotate_legacy_reward
  claim_legacy_reward-IsClaimed now at who n s s' h =
      elim (Result-cases (
        rotated c now (at - at % c.era_duration) 0
          (or_zero (get (or_default (get who s.rewards)).last_modify s.volumes)) s.era_rewards
          (or_default (get who s.rewards)))) [
            | inl (e, failed) ↦ ground arith
            | inr (r, done) ↦ elim (Result-cases (mint c who r.confirmed s.assets)) [
              | inl (e, failed) ↦ ground (arith, get-insert_self who r s.rewards)
              | inr (assets, paid) ↦ ground (arith, get-insert_self who r s.rewards)
            ]
          ]

  claim_reward-IsClaimed :
      (now at who n : ℕ) (s s' : State asset.Store)
      → claim_reward c now who at s ≡ ok (n, s')
      → IsClaimed now
          (at - at % c.era_duration)
          who
          (or_zero (get (or_default (get who s.marketing_rewards)).last_modify s.taken_liquidity))
          s.era_rewards
          s.marketing_rewards
          s'.marketing_rewards
        × (s'.volumes ≡ s.volumes)
        × (s'.taken_liquidity ≡ s.taken_liquidity)
        × (s'.rewards ≡ s.rewards)
  unfolding claim_reward rotate_reward
  claim_reward-IsClaimed now at who n s s' h =
      let r0 = or_default (get who s.marketing_rewards) in
      elim (Result-cases (
        rotated c now (at - at % c.era_duration) 0 (or_zero (get r0.last_modify s.taken_liquidity))
          s.era_rewards r0)) [
            | inl (e, failed) ↦ ground arith
            | inr (r, done) ↦ elim (Result-cases (mint c who r.confirmed s.assets)) [
              | inl (e, failed) ↦ ground (arith, get-insert_self who r s.marketing_rewards)
              | inr (assets, paid) ↦ ground (arith, get-insert_self who r s.marketing_rewards)
            ]
          ]

  IsClaimed-Covers :
      (now at who total era_rewards : ℕ) (totals : StorageMap ℕ ℕ) (m m' : StorageMap ℕ Reward)
      → IsClaimed now at who total era_rewards m m'
      → Covers totals m
      → Covers totals m'
  IsClaimed-Covers now at who total era_rewards totals m m' (r, done, written) covers =
      let covers' =
        rotated-Covers now at 0 total era_rewards who r totals totals m done (λ era. ground arith)
          covers in
      elim written [
        | inl e ↦ rw e covers'
        | inr e ↦
            rw e (settled-Covers who r totals (insert who r m) (get-insert_self who r m) covers')
      ]

  -- `IsFunded` reads four maps.
  pub alike-IsFunded :
      (s s' : State asset.Store)
      → s'.volumes ≡ s.volumes
      → s'.rewards ≡ s.rewards
      → s'.taken_liquidity ≡ s.taken_liquidity
      → s'.marketing_rewards ≡ s.marketing_rewards
      → IsFunded s
      → IsFunded s'
  alike-IsFunded s s' v r t m b = rw (v, r, t, m) b

  claim_legacy_reward-IsFunded :
      (now at who n : ℕ) (s s' : State asset.Store)
      → claim_legacy_reward c now who at s ≡ ok (n, s')
      → IsFunded s
      → IsFunded s'
  claim_legacy_reward-IsFunded now at who n s s' h (legacy, current) =
      let (claimed, v, t, m) = claim_legacy_reward-IsClaimed now at who n s s' h in
      (
        rw v (
            IsClaimed-Covers now (at - at % c.era_duration) who
              (or_zero (get (or_default (get who s.rewards)).last_modify s.volumes)) s.era_rewards
              s.volumes s.rewards s'.rewards claimed legacy),
        rw (t, m) current,
      )

  claim_reward-IsFunded :
      (now at who n : ℕ) (s s' : State asset.Store)
      → claim_reward c now who at s ≡ ok (n, s')
      → IsFunded s
      → IsFunded s'
  claim_reward-IsFunded now at who n s s' h (legacy, current) =
      let (claimed, v, t, m) = claim_reward-IsClaimed now at who n s s' h in
      (
        rw (v, m) legacy,
        rw t (
            IsClaimed-Covers now (at - at % c.era_duration) who
              (or_zero
                (get (or_default (get who s.marketing_rewards)).last_modify s.taken_liquidity))
              s.era_rewards s.taken_liquidity s.marketing_rewards s'.marketing_rewards claimed
              current),
      )

  pub take_reward-IsFunded :
      (now : ℕ) (origin : Origin) (s s' : State asset.Store)
      → take_reward c now origin s ≡ ok s'
      → IsFunded s
      → IsFunded s'
  unfolding take_reward
  take_reward-IsFunded now root s s' h b = cc
  take_reward-IsFunded now unsigned s s' h b = cc
  take_reward-IsFunded now (signed who) s s' h b =
      elim (Result-cases (claim_legacy_reward c now who now s)) [
        | inl (e, failed) ↦ ground arith
        | inr ((legacy, s1), first) ↦ elim (Result-cases (claim_reward c now who now s1)) [
          | inl (e, failed) ↦ ground arith
          | inr ((reward, s2), second) ↦
              alike-IsFunded s2 s' (ground arith) (ground arith) (ground arith) (ground arith) (
                claim_reward-IsFunded now now who reward s1 s2 second
                  (claim_legacy_reward-IsFunded now now who legacy s s1 first b))
        ]
      ]
