-- ===== src/Reward/Repeat.antt =====
-- What a claim and a withdrawal of pallets/reward leave behind.
use fusotao.Prelude.{
  ℕ, ◌-◌, ◌%◌, ◌<◌, ◌≡◌, ◌⊎◌, inl, inr, none, arith, nat_eq, pair_eq, bytes_eq, u128_mod,
}
use fusotao.Support.Storage.{
  get, insert, remove, get-insert_self, IsMap, insert-IsMap, get-remove_self, get-put_self,
}
use fusotao.Support.Dispatch.{Result-cases, ok}
use fusotao.Reward.Types.{Reward, or_default, or_zero, Symbol, State, Config}
use fusotao.Reward.Claims.{rotated, rotate_reward, unless_settled, mint, claim_reward}
use fusotao.Reward.Liquidity.{put_liquidity, remove_liquidity}

module _ (c : Config) where
  open c use {asset}

  -- A rotation without volume leaves nothing pending outside its era, and only what fits `u128`.
  rotated_nothing :
      (now at total era_rewards : ℕ) (r r' : Reward)
      → rotated c now at 0 total era_rewards r ≡ ok r'
      → (r'.last_modify ≡ at) × (r'.pending_vol < u128_mod)
  unfolding rotated
  rotated_nothing now at total era_rewards r r' h = ground arith

  rotated_settled :
      (now at total era_rewards : ℕ) (r : Reward)
      → r.confirmed ≡ 0
      → ((r.last_modify ≡ at) × (r.pending_vol < u128_mod)) ⊎ (r.pending_vol ≡ 0)
      → (r' : Reward) × (rotated c now at 0 total era_rewards r ≡ ok r') × (r'.confirmed ≡ 0)
  unfolding rotated
  rotated_settled now at total era_rewards r unpaid known =
      elim (Result-cases (rotated c now at 0 total era_rewards r)) [
        | inl (e, failed) ↦ absurd (ground arith)
        | inr (r', done) ↦ (r', done, ground arith)
      ]

  -- Liquidity that is put and removed again comes back with the block it was put at, and leaves no
  -- entry, when the volume is above zero and the pool has each key once.
  pub remove_liquidity-put_liquidity :
      (maker : ℕ) (symbol : Symbol) (vol at : ℕ) (s : State asset.Store)
      → 0 < vol
      → IsMap s.liquidity_pool
      → (s' : State asset.Store) × (remove_liquidity c maker symbol vol
            (put_liquidity c maker symbol vol at s)
          ≡ ok (at, s'))
        × (get (maker, symbol) s'.liquidity_pool ≡ none)
  unfolding remove_liquidity put_liquidity
  remove_liquidity-put_liquidity maker symbol vol at s pos m =
      let q = insert (maker, symbol) (record { volume = vol; start_from = at }) s.liquidity_pool in
      let found =
        get-insert_self (maker, symbol) (record { volume = vol; start_from = at })
          s.liquidity_pool in
      let gone =
        get-remove_self (maker, symbol) q
          (insert-IsMap (maker, symbol) (record { volume = vol; start_from = at }) s.liquidity_pool
            m) in
      (record s { liquidity_pool = remove (maker, symbol) q }, ground (arith, found), gone)

  -- What a claim leaves of the claimer's reward: nothing confirmed, and what is pending belongs to the
  -- era of the claim.
  claim_reward-settled :
      (now at who n : ℕ) (s s' : State asset.Store)
      → IsMap s.marketing_rewards
      → claim_reward c now who at s ≡ ok (n, s')
      → let r = or_default (get who s'.marketing_rewards) in
        (r.confirmed ≡ 0)
        × (((r.last_modify ≡ at - at % c.era_duration) × (r.pending_vol < u128_mod))
            ⊎ (r.pending_vol ≡ 0))
        × (0 < c.era_duration)
  unfolding claim_reward rotate_reward
  claim_reward-settled now at who n s s' m h =
      let r0 = or_default (get who s.marketing_rewards) in
      let total = or_zero (get r0.last_modify s.taken_liquidity) in
      let begin = at - at % c.era_duration in
      elim (Result-cases (rotated c now begin 0 total s.era_rewards r0)) [
        | inl (e, failed) ↦ ground arith
        | inr (r, done) ↦
            let m1 = insert who r s.marketing_rewards in
            elim (Result-cases (mint c who r.confirmed s.assets)) [
              | inl (e, failed) ↦ ground (
                arith,
                get-insert_self who r s.marketing_rewards,
                rotated_nothing now begin total s.era_rewards r0 r done,
              )
              | inr (assets, paid) ↦ ground (
                arith,
                get-insert_self who r s.marketing_rewards,
                rotated_nothing now begin total s.era_rewards r0 r done,
                get-put_self who (unless_settled c r) m1 (insert-IsMap who r s.marketing_rewards m),
              )
            ]
      ]

  -- A claim that succeeds leaves nothing to claim: a second one at the same block succeeds and pays
  -- nothing, when the map of rewards has each account once.
  pub claim_reward-claim_reward :
      (now at who n : ℕ) (s s' : State asset.Store)
      → IsMap s.marketing_rewards
      → claim_reward c now who at s ≡ ok (n, s')
      → (s'' : State asset.Store) × (claim_reward c now who at s' ≡ ok (0, s''))
  unfolding claim_reward rotate_reward
  claim_reward-claim_reward now at who n s s' m h =
      let r = or_default (get who s'.marketing_rewards) in
      let (zero_, known, runs) = claim_reward-settled now at who n s s' m h in
      let (r', done, unpaid) =
        rotated_settled now (at - at % c.era_duration)
          (or_zero (get r.last_modify s'.taken_liquidity)) s'.era_rewards r zero_ known in
      (record s' { marketing_rewards = insert who r' s'.marketing_rewards }, ground arith)
