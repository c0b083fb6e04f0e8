-- ===== src/Verifier/Untouched.antt =====
-- The operations of pallets/verifier that do not write `Dominators`.
use fusotao.Prelude.{
  ℕ, ◌≡◌, refl, arith, Option-cases, inl, inr, Option, nat_eq, List, [], ◌∷◌, pair_eq,
}
use fusotao.Support.Storage.{get}
use fusotao.Support.Dispatch.{ok, Result-cases}
use fusotao.Support.Constants.{reserve_for_authorizing_stash}
use fusotao.Verifier.Types.{Distribution, State, Config, or_staking}
use fusotao.Verifier.Reserves.{reserve, unreserve}
use fusotao.Verifier.Custody.{
  authorize_to, merge_stash, revoke_evicted, revoke_receipt, revoked_amount, revoke_from,
}
use fusotao.Verifier.Staking.{current_season, take_shares, grow_staking, shrink_staking, claim_from}
use fusotao.Verifier.Dominators.{unlock, unlock_all}

module _ (c : Config) where
  open c use {asset}

  -- Most operations do not write `Dominators`.
  pub reserve-dominators :
      (id who token value to : ℕ) (s s' : State asset.Store)
      → reserve c id who token value to s ≡ ok s'
      → s'.dominators ≡ s.dominators
  unfolding reserve
  reserve-dominators id who token value to s s' h = ground arith

  pub unreserve-dominators :
      (id who token value from : ℕ) (s s' : State asset.Store)
      → unreserve c id who token value from s ≡ ok s'
      → s'.dominators ≡ s.dominators
  unfolding unreserve
  unreserve-dominators id who token value from s s' h = ground arith

  pub take_shares-dominators :
      (staker dex season : ℕ) (d : Distribution) (s s' : State asset.Store)
      → take_shares c staker dex d s ≡ ok (season, s')
      → s'.dominators ≡ s.dominators
  unfolding take_shares
  take_shares-dominators staker dex season d s s' h = ground arith

  pub authorize_to-dominators :
      (now who dex token amount : ℕ) (s s' : State asset.Store)
      → authorize_to c now who dex token amount s ≡ ok s'
      → s'.dominators ≡ s.dominators
  unfolding authorize_to
  authorize_to-dominators now who dex token amount s s' h =
      elim (Result-cases (reserve c reserve_for_authorizing_stash who token amount dex s)) [
        | inl (e, failed) ↦ ground arith
        | inr (s₁, held) ↦
            ground (
              arith,
              reserve-dominators reserve_for_authorizing_stash who token amount dex s s₁ held,
            )
      ]

  pub merge_stash-dominators :
      (who token dex : ℕ) (s s' : State asset.Store)
      → merge_stash c who token dex s ≡ ok s'
      → s'.dominators ≡ s.dominators
  unfolding merge_stash
  merge_stash-dominators who token dex s s' h = ground arith

  pub revoke_evicted-dominators :
      (who dex token amount : ℕ) (s s' : State asset.Store)
      → revoke_evicted c who dex token amount s ≡ ok s'
      → s'.dominators ≡ s.dominators
  unfolding revoke_evicted
  revoke_evicted-dominators who dex token amount s s' h =
      elim (Result-cases (merge_stash c who token dex s)) [
        | inl (e, failed) ↦ ground arith
        | inr (s₁, merged) ↦
            let kept : s₁.dominators ≡ s.dominators =
              merge_stash-dominators who token dex s s₁ merged in
            elim (Result-cases (unreserve c 1 who token amount dex s₁)) [
              | inl (e, failed) ↦ ground arith
              | inr (s₂, freed) ↦
                  ground (arith, kept, unreserve-dominators 1 who token amount dex s₁ s₂ freed)
            ]
      ]

  pub revoke_from-dominators :
      (now who dex token : ℕ) (amount callback : Option ℕ) (s s' : State asset.Store)
      → revoke_from c now who dex token amount callback s ≡ ok s'
      → s'.dominators ≡ s.dominators
  unfolding revoke_from revoke_receipt
  revoke_from-dominators now who dex token amount callback s s' h =
      elim (Option-cases (get dex s.dominators)) [
        | inl missing ↦ ground arith
        | inr (dominator, found) ↦
            elim (Result-cases
              (revoke_evicted c who dex token (revoked_amount c amount who token dex s) s)) [
                | inl (e, failed) ↦ ground arith
                | inr (s₁, done) ↦ ground (
                  arith,
                  revoke_evicted-dominators who dex token (revoked_amount c amount who token dex s)
                      s s₁ done,
                )
              ]
      ]

  pub grow_staking-dominators :
      (now staker dex amount start : ℕ) (s s' : State asset.Store)
      → grow_staking c now staker dex amount start s ≡ ok s'
      → s'.dominators ≡ s.dominators
  unfolding grow_staking
  grow_staking-dominators now staker dex amount start s s' h =
      let staking = or_staking (get (dex, staker) s.stakings) in
      let d : Distribution = record {
        from_season = staking.from_season;
        to_season = current_season c now start;
        staking = staking.amount;
      } in
      elim (Result-cases (reserve c 0 staker asset.native_token_id amount dex s)) [
        | inl (e, failed) ↦ ground arith
        | inr (s₁, held) ↦
            let kept = reserve-dominators 0 staker asset.native_token_id amount dex s s₁ held in
            elim (Result-cases (take_shares c staker dex d s₁)) [
              | inl (e, failed) ↦ ground arith
              | inr ((season, s₂), taken) ↦
                  ground (arith, kept, take_shares-dominators staker dex season d s₁ s₂ taken)
            ]
      ]

  pub shrink_staking-dominators :
      (now staker dex amount start : ℕ) (s s' : State asset.Store)
      → shrink_staking c now staker dex amount start s ≡ ok s'
      → s'.dominators ≡ s.dominators
  unfolding shrink_staking take_shares reserve unreserve
  shrink_staking-dominators now staker dex amount start s s' h = ground arith

  pub claim_from-dominators :
      (now staker dex : ℕ) (s s' : State asset.Store)
      → claim_from c now staker dex s ≡ ok s'
      → s'.dominators ≡ s.dominators
  unfolding claim_from take_shares
  claim_from-dominators now staker dex s s' h = ground arith

  pub unlock_all-dominators :
      (due : List (ℕ × ℕ)) (s : State asset.Store) → (unlock_all c due s).dominators ≡ s.dominators
  unfolding unlock_all unlock
  unlock_all-dominators [] s = refl
  unlock_all-dominators ((staker, amount) ∷ rest) s =
      elim (Result-cases (unreserve c 3 staker asset.native_token_id amount c.system_account s)) [
        | inl (e, failed) ↦ ground (arith, unlock_all-dominators rest s)
        | inr (s₁, freed) ↦ ground (
          arith,
          unlock_all-dominators rest (unlock c staker amount s),
          unreserve-dominators 3 staker asset.native_token_id amount c.system_account s s₁ freed,
        )
      ]
