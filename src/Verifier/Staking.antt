-- ===== src/Verifier/Staking.antt =====
-- Staking on dominators, seasons and the sharing of profits: pallets/verifier/src/lib.rs.
use fusotao.Prelude.{
  ℕ, zero, suc, ◌+◌, ◌-◌, ◌*◌, ◌/◌, ◌%◌, Bool, true, false, not, ◌&&◌, ◌||◌, none, some, List, [],
  ◌∷◌, ◌==◌, leb, if◌then◌else◌, checked_add, checked_sub, nat_eq, pair_eq, u32_mod, u128_mod,
}
use fusotao.Support.Storage.{StorageMap, get, insert, put}
use fusotao.Support.Dispatch.{
  Result, ok, ◌>>=◌, ◌>>◌, ensure, ok_or, VerifierError, Origin, ensure_signed,
}
use fusotao.Support.Asset.{Account, on_account}
use fusotao.Support.Constants.{
  reserve_for_staking, reserve_for_pending_unstake, dominator_registered, dominator_inactive,
  dominator_active, dominator_evicted,
}
use fusotao.Verifier.Types.{
  Staking, Bonus, Distribution, Event, State, deposit_event, Config, fail, or_zero, or_staking,
  or_bonus,
}
use fusotao.Verifier.Reserves.{reserve, unreserve}

abbrev pub unstake_delay_blocks : ℕ
unstake_delay_blocks = 14400 * 4

-- `entry(key).and_modify(|v| *v += amount).or_insert(amount)`; `+=` on `u128` wraps.
unfoldable pub accumulate : ℕ → ℕ → StorageMap ℕ ℕ → StorageMap ℕ ℕ
accumulate key amount m = elim (get key m) [
  | none ↦ insert key amount m
  | some v ↦ insert key ((v + amount) % u128_mod) m
]

module _ (c : Config) where
  open c use {asset}

  unfoldable pub current_season : ℕ → ℕ → ℕ
  current_season now claim_at = if leb now claim_at then 0 else (now - claim_at) / c.season_duration

  unfoldable pub start_block_of_season : ℕ → ℕ → ℕ
  start_block_of_season claim_at season =
      (claim_at + season * c.season_duration % u32_mod) % u32_mod

  -- The shares of one season: `for (token_id, profit) in bonus.profit`.
  unfoldable pub share_profits : ℕ → ℕ → List (ℕ × ℕ) → StorageMap ℕ ℕ → StorageMap ℕ ℕ
  unfolding accumulate
  share_profits staking total_staking [] shares = shares
  share_profits staking total_staking ((token_id, profit) ∷ rest) shares =
      share_profits staking total_staking rest
        (accumulate token_id (c.share staking total_staking profit) shares)

  abbrev pub is_empty : StorageMap ℕ ℕ → Bool
  is_empty [] = true
  is_empty (_ ∷ _) = false

  -- `for season in from_season..to_season`, with the number of seasons that are left.
  unfoldable pub collect_shares :
      ℕ → ℕ → ℕ → ℕ → StorageMap (ℕ × ℕ) Bonus → StorageMap ℕ ℕ → StorageMap ℕ ℕ
  unfolding share_profits
  collect_shares zero season dominator staking bonuses shares = shares
  collect_shares (suc left) season dominator staking bonuses shares =
      let bonus = or_bonus (get (dominator, season) bonuses) in
      collect_shares left (season + 1) dominator staking bonuses (
        if bonus.staked == 0 || is_empty bonus.profit
        then shares
        else share_profits staking bonus.staked bonus.profit shares)

  -- `b.0 += profit`, which wraps
  abbrev pub credit : ℕ → Account → Result Account
  credit amount b = ok (record b { free = (b.free + amount) % u128_mod })

  -- `for (token_id, profit) in shares`
  unfoldable pub pay_shares : ℕ → List (ℕ × ℕ) → asset.Store → Result asset.Store
  pay_shares staker [] assets = ok assets
  pay_shares staker ((token_id, profit) ∷ rest) assets = do
    assets' ← asset.try_mutate_account token_id staker (on_account (credit profit)) assets
    pay_shares staker rest assets'

  unfoldable pub take_shares :
      ℕ → ℕ → Distribution → State asset.Store → Result (ℕ × State asset.Store)
  unfolding collect_shares pay_shares
  take_shares staker dominator d s =
      if d.to_season == d.from_season then ok (d.from_season, s) else (do
        let shares =
            collect_shares (d.to_season - d.from_season) d.from_season dominator d.staking s.bonuses
              []
        assets ← pay_shares staker shares s.assets
        ok (d.to_season, record s { assets = assets }))

  unfoldable pub put_profit : ℕ → ℕ → ℕ → ℕ → State asset.Store → Result (State asset.Store)
  unfolding accumulate
  put_profit dominator season currency balance s = if balance == 0 then ok s else (do
    let b = or_bonus (get (dominator, season) s.bonuses)
    let b' : Bonus = record b { profit = accumulate currency balance b.profit }
    ok (record s { bonuses = insert (dominator, season) b' s.bonuses }))

  -- A dominator's status follows its stake and the threshold.
  abbrev pub status_of : ℕ → ℕ
  status_of staked =
      if leb c.dominator_online_threshold staked then dominator_active else dominator_inactive

  abbrev pub event_if : Bool → Event → State asset.Store → State asset.Store
  event_if true e s = deposit_event e s
  event_if false e s = s

  -- The closure on `Stakings` in `stake_on`.
  unfoldable pub grow_staking : ℕ → ℕ → ℕ → ℕ → ℕ → State asset.Store → Result (State asset.Store)
  unfolding current_season take_shares
  grow_staking now staker dominator_id amount start_from s = do
    let staking = or_staking (get (dominator_id, staker) s.stakings)
    s₁ ← reserve c reserve_for_staking staker asset.native_token_id amount dominator_id s
    let season = current_season now start_from
    let distribution : Distribution = record {
      from_season = staking.from_season;
      to_season = season;
      staking = staking.amount;
    }
    (_, s₂) ←
        (if staking.amount == 0
          then ok (0, s₁)
          else take_shares staker dominator_id distribution s₁)
    let staking' : Staking = record {
      from_season = season;
      amount = (staking.amount + amount) % u128_mod;
    }
    ok (record s₂ { stakings = insert (dominator_id, staker) staking' s₂.stakings })

  unfoldable pub stake_on : ℕ → ℕ → ℕ → ℕ → State asset.Store → Result (State asset.Store)
  unfolding grow_staking
  stake_on now staker dominator_id amount s = do
    ensure (leb c.minimal_staking_amount amount) (fail VerifierError.little_staking_amount)
    dominator ← ok_or (get dominator_id s.dominators) (fail VerifierError.dominator_not_found)
    ensure (dominator.status == dominator_active || dominator.status == dominator_inactive)
        (fail VerifierError.dominator_status_invalid)
    s₁ ← grow_staking now staker dominator_id amount dominator.start_from s
    let staked = (dominator.staked + amount) % u128_mod
    let status = status_of staked
    let s₂ = deposit_event (Event.tao_staked staker dominator_id amount) s₁
    let s₃ =
        event_if (status == dominator_active && dominator.status == dominator_inactive)
          (Event.dominator_online dominator_id) s₂
    ok (record s₃ {
      dominators =
          insert dominator_id (record dominator { staked = staked; status = status }) s₃.dominators;
    })

  -- The closure on `Stakings` in `unstake_from`.
  unfoldable pub shrink_staking : ℕ → ℕ → ℕ → ℕ → ℕ → State asset.Store → Result (State asset.Store)
  unfolding current_season take_shares
  shrink_staking now staker dominator_id amount start_from s = do
    staking ← ok_or (get (dominator_id, staker) s.stakings) (fail VerifierError.invalid_staking)
    remain ← ok_or (checked_sub staking.amount amount) (fail VerifierError.insufficient_balance)
    ensure (remain == 0 || leb c.minimal_staking_amount remain)
        (fail VerifierError.little_staking_amount)
    s₁ ← unreserve c reserve_for_staking staker asset.native_token_id amount dominator_id s
    s₂ ←
        reserve c reserve_for_pending_unstake staker asset.native_token_id amount c.system_account
          s₁
    let season = current_season now start_from
    let unlock_at = (now - now % c.dominator_check_grace_period + unstake_delay_blocks) % u32_mod
    pending ←
        ok_or (checked_add (or_zero (get (unlock_at, staker) s₂.pending_unstakings)) amount)
          (fail VerifierError.overflow)
    let s₃ = record s₂ {
      pending_unstakings = insert (unlock_at, staker) pending s₂.pending_unstakings;
    }
    let distribution : Distribution = record {
      from_season = staking.from_season;
      to_season = season;
      staking = staking.amount;
    }
    (_, s₄) ← take_shares staker dominator_id distribution s₃
    let staking' : Staking = record { from_season = season; amount = remain }
    ok (record s₄ {
      stakings =
          put (dominator_id, staker) (if remain == 0 then none else some staking') s₄.stakings;
    })

  unfoldable pub unstake_from : ℕ → ℕ → ℕ → ℕ → State asset.Store → Result (State asset.Store)
  unfolding shrink_staking
  unstake_from now staker dominator_id amount s = do
    dominator ← ok_or (get dominator_id s.dominators) (fail VerifierError.dominator_not_found)
    ensure (not (dominator.status == dominator_registered))
        (fail VerifierError.dominator_status_invalid)
    staked ← ok_or (checked_sub dominator.staked amount) (fail VerifierError.insufficient_balance)
    s₁ ← shrink_staking now staker dominator_id amount dominator.start_from s
    let status =
        if dominator.status == dominator_evicted then dominator.status else status_of staked
    let s₂ = deposit_event (Event.tao_unstaked staker dominator_id amount) s₁
    let s₃ =
        event_if (status == dominator_inactive && dominator.status == dominator_active)
          (Event.dominator_offline dominator_id) s₂
    ok (record s₃ {
      dominators =
          insert dominator_id (record dominator { staked = staked; status = status }) s₃.dominators;
    })

  unfoldable pub stake : ℕ → Origin → ℕ → ℕ → State asset.Store → Result (State asset.Store)
  stake now origin dominator amount s = do
    staker ← ensure_signed origin
    id ← c.lookup dominator
    stake_on now staker id amount s

  unfoldable pub unstake : ℕ → Origin → ℕ → ℕ → State asset.Store → Result (State asset.Store)
  unstake now origin dominator amount s = do
    staker ← ensure_signed origin
    id ← c.lookup dominator
    unstake_from now staker id amount s

  -- `claim_shares` behind its checks of the origin
  unfoldable pub claim_from : ℕ → ℕ → ℕ → State asset.Store → Result (State asset.Store)
  unfolding current_season take_shares
  claim_from now signer dex s = do
    dominator ← ok_or (get dex s.dominators) (fail VerifierError.dominator_not_found)
    ensure (not (dominator.status == dominator_registered))
        (fail VerifierError.dominator_status_invalid)
    staking ← ok_or (get (dex, signer) s.stakings) (fail VerifierError.invalid_staking)
    let distribution : Distribution = record {
      from_season = staking.from_season;
      to_season = current_season now dominator.start_from;
      staking = staking.amount;
    }
    (season, s') ← take_shares signer dex distribution s
    ok (record s' {
      stakings = insert (dex, signer) (record staking { from_season = season }) s'.stakings;
    })

  unfoldable pub claim_shares : ℕ → Origin → ℕ → State asset.Store → Result (State asset.Store)
  claim_shares now origin dominator_id s = do
    signer ← ensure_signed origin
    dex ← c.lookup dominator_id
    claim_from now signer dex s
