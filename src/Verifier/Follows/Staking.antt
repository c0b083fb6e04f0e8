-- ===== src/Verifier/Follows/Staking.antt =====
-- The operations on stakings move `Reserves` and the reserved balances together: what they pay out of
-- the profits reaches free balances alone.
use fusotao.Prelude.{
  ℕ, ◌+◌, ◌-◌, ◌≡◌, refl, ◌%◌, ◌==◌, arith, Bool-cases, Option-cases, inl, inr, List, [], ◌∷◌,
  nat_eq, pair_eq, u32_mod,
}
use fusotao.Support.Storage.{get, insert}
use fusotao.Support.Dispatch.{ok, Result-cases}
use fusotao.Support.Asset.{ReserveLaws, on_account}
use fusotao.Support.Constants.{reserve_for_staking, reserve_for_pending_unstake}
use fusotao.Verifier.Types.{Distribution, State, Config, or_zero, or_staking}
use fusotao.Verifier.Reserves.{reserve, unreserve}
use fusotao.Verifier.Staking.{
  credit, pay_shares, collect_shares, take_shares, current_season, grow_staking, stake_on,
  shrink_staking, unstake_from, claim_from,
}
use fusotao.Verifier.Follows.{
  Follows, Follows-trans, aside-Follows, reserve-Follows, unreserve-Follows,
}

module _ (c : Config) (laws : ReserveLaws c.asset) where
  open c use {asset}
  open laws use {IsValid}

  pub credit-reserved :
      (token who amount t w : ℕ) (a a' : asset.Store)
      → asset.try_mutate_account token who (on_account (credit c amount)) a ≡ ok a'
      → IsValid a
      → asset.reserved_balance t w a' ≡ asset.reserved_balance t w a
  credit-reserved token who amount t w a a' h v =
      let (b, done) = laws.mutate-eq-ok token who (credit c amount) a a' h in
      let kept : b.reserved ≡ asset.reserved_balance token who a = ground arith in
      ground (arith, laws.reserved-mutate token who t w (credit c amount) b a a' done h v)

  pub pay_shares-IsValid :
      (staker : ℕ) (shares : List (ℕ × ℕ)) (a a' : asset.Store)
      → pay_shares c staker shares a ≡ ok a'
      → IsValid a
      → IsValid a'
  unfolding pay_shares
  pay_shares-IsValid staker [] a a' h v = let same : a' ≡ a = ground arith in rw same v
  pay_shares-IsValid staker ((token, profit) ∷ rest) a a' h v =
      elim (Result-cases (asset.try_mutate_account token staker (on_account (credit c profit)) a)) [
        | inl (e, failed) ↦ ground arith
        | inr (a₁, paid) ↦
            let v₁ = laws.mutate-IsValid token staker (credit c profit) a a₁ paid v in
            pay_shares-IsValid staker rest a₁ a' (ground arith) v₁
      ]

  pub pay_shares-reserved :
      (staker : ℕ) (shares : List (ℕ × ℕ)) (t w : ℕ) (a a' : asset.Store)
      → pay_shares c staker shares a ≡ ok a'
      → IsValid a
      → asset.reserved_balance t w a' ≡ asset.reserved_balance t w a
  unfolding pay_shares
  pay_shares-reserved staker [] t w a a' h v = ground arith
  pay_shares-reserved staker ((token, profit) ∷ rest) t w a a' h v =
      elim (Result-cases (asset.try_mutate_account token staker (on_account (credit c profit)) a)) [
        | inl (e, failed) ↦ ground arith
        | inr (a₁, paid) ↦
            let v₁ = laws.mutate-IsValid token staker (credit c profit) a a₁ paid v in
            ground (
              arith,
              pay_shares-reserved staker rest t w a₁ a' (ground arith) v₁,
              credit-reserved token staker profit t w a a₁ paid v,
            )
      ]

  pub take_shares-Follows :
      (staker dex season : ℕ) (d : Distribution) (s s' : State asset.Store)
      → take_shares c staker dex d s ≡ ok (season, s')
      → IsValid s.assets
      → Follows c laws s s'
  unfolding take_shares
  take_shares-Follows staker dex season d s s' h v =
      let shares =
        collect_shares c (d.to_season - d.from_season) d.from_season dex d.staking s.bonuses [] in
      elim (Bool-cases (d.to_season == d.from_season)) [
        | inl same ↦ aside-Follows c laws s s' (ground arith) (ground arith) v
        | inr later ↦ elim (Result-cases (pay_shares c staker shares s.assets)) [
          | inl (e, failed) ↦ ground arith
          | inr (a, paid) ↦
              let e : s' ≡ record s { assets = a } = ground arith in
              rw e (record {
                valid = pay_shares-IsValid staker shares s.assets a paid v;
                moved = λ t w. rw (pay_shares-reserved staker shares t w s.assets a paid v) refl;
              })
        ]
      ]

  pub grow_staking-Follows :
      (now staker dex amount start : ℕ) (s s' : State asset.Store)
      → grow_staking c now staker dex amount start s ≡ ok s'
      → IsValid s.assets
      → Follows c laws s s'
  unfolding grow_staking
  grow_staking-Follows now staker dex amount start s s' h v =
      let staking = or_staking (get (dex, staker) s.stakings) in
      let d : Distribution = record {
        from_season = staking.from_season;
        to_season = current_season c now start;
        staking = staking.amount;
      } in
      elim (Result-cases
        (reserve c reserve_for_staking staker asset.native_token_id amount dex s)) [
          | inl (e, failed) ↦ ground arith
          | inr (s₁, held) ↦
              let f =
                reserve-Follows c laws reserve_for_staking staker asset.native_token_id amount dex s
                  s₁ held v in
              elim (Bool-cases (staking.amount == 0)) [
                | inl first ↦
                    Follows-trans c laws s s₁ s' f
                      (aside-Follows c laws s₁ s' (ground arith) (ground arith) f.valid)
                | inr again ↦ elim (Result-cases (take_shares c staker dex d s₁)) [
                  | inl (e, failed) ↦ ground arith
                  | inr ((season, s₂), taken) ↦
                      let g = take_shares-Follows staker dex season d s₁ s₂ taken f.valid in
                      Follows-trans c laws s s₁ s' f (
                        Follows-trans c laws s₁ s₂ s' g
                          (aside-Follows c laws s₂ s' (ground arith) (ground arith) g.valid))
                ]
              ]
        ]

  pub stake_on-Follows :
      (now staker dex amount : ℕ) (s s' : State asset.Store)
      → stake_on c now staker dex amount s ≡ ok s'
      → IsValid s.assets
      → Follows c laws s s'
  unfolding stake_on
  stake_on-Follows now staker dex amount s s' h v = elim (Option-cases (get dex s.dominators)) [
    | inl missing ↦ ground arith
    | inr (dominator, found) ↦
        elim (Result-cases (grow_staking c now staker dex amount dominator.start_from s)) [
          | inl (e, failed) ↦ ground arith
          | inr (s₁, grown) ↦
              let f =
                grow_staking-Follows now staker dex amount dominator.start_from s s₁ grown v in
              Follows-trans c laws s s₁ s' f
                (aside-Follows c laws s₁ s' (ground arith) (ground arith) f.valid)
        ]
  ]

  pub shrink_staking-Follows :
      (now staker dex amount start : ℕ) (s s' : State asset.Store)
      → shrink_staking c now staker dex amount start s ≡ ok s'
      → IsValid s.assets
      → Follows c laws s s'
  unfolding shrink_staking
  shrink_staking-Follows now staker dex amount start s s' h v =
      elim (Option-cases (get (dex, staker) s.stakings)) [
        | inl missing ↦ ground arith
        | inr (staking, found) ↦
            elim (Result-cases
              (unreserve c reserve_for_staking staker asset.native_token_id amount dex s)) [
                | inl (e, failed) ↦ ground arith
                | inr (s₁, freed) ↦
                    let f =
                      unreserve-Follows c laws reserve_for_staking staker asset.native_token_id
                        amount dex s s₁ freed v in
                    elim (Result-cases (
                      reserve c reserve_for_pending_unstake staker asset.native_token_id amount
                        c.system_account s₁)) [
                          | inl (e, failed) ↦ ground arith
                          | inr (s₂, held) ↦
                              let g =
                                reserve-Follows c laws reserve_for_pending_unstake staker
                                  asset.native_token_id amount c.system_account s₁ s₂ held
                                  f.valid in
                              let unlock_at =
                                (now - now % c.dominator_check_grace_period + 57600) % u32_mod in
                              let pending =
                                or_zero (get (unlock_at, staker) s₂.pending_unstakings) + amount in
                              let s₃ : State asset.Store = record s₂ {
                                pending_unstakings =
                                    insert (unlock_at, staker) pending s₂.pending_unstakings;
                              } in
                              let d : Distribution = record {
                                from_season = staking.from_season;
                                to_season = current_season c now start;
                                staking = staking.amount;
                              } in
                              elim (Result-cases (take_shares c staker dex d s₃)) [
                                | inl (e, failed) ↦ ground arith
                                | inr ((season, s₄), taken) ↦
                                    let k = aside-Follows c laws s₂ s₃ refl refl g.valid in
                                    let i =
                                      take_shares-Follows staker dex season d s₃ s₄ taken g.valid in
                                    Follows-trans c laws s s₁ s' f (
                                      Follows-trans c laws s₁ s₂ s' g (
                                        Follows-trans c laws s₂ s₃ s' k (
                                          Follows-trans c laws s₃ s₄ s' i (
                                            aside-Follows c laws s₄ s' (ground arith) (ground arith)
                                              i.valid))))
                              ]
                        ]
              ]
      ]

  pub unstake_from-Follows :
      (now staker dex amount : ℕ) (s s' : State asset.Store)
      → unstake_from c now staker dex amount s ≡ ok s'
      → IsValid s.assets
      → Follows c laws s s'
  unfolding unstake_from
  unstake_from-Follows now staker dex amount s s' h v = elim (Option-cases (get dex s.dominators)) [
    | inl missing ↦ ground arith
    | inr (dominator, found) ↦
        elim (Result-cases (shrink_staking c now staker dex amount dominator.start_from s)) [
          | inl (e, failed) ↦ ground arith
          | inr (s₁, shrunk) ↦
              let f =
                shrink_staking-Follows now staker dex amount dominator.start_from s s₁ shrunk v in
              Follows-trans c laws s s₁ s' f
                (aside-Follows c laws s₁ s' (ground arith) (ground arith) f.valid)
        ]
  ]

  pub claim_from-Follows :
      (now staker dex : ℕ) (s s' : State asset.Store)
      → claim_from c now staker dex s ≡ ok s'
      → IsValid s.assets
      → Follows c laws s s'
  unfolding claim_from
  claim_from-Follows now staker dex s s' h v = elim (Option-cases (get dex s.dominators)) [
    | inl missing ↦ ground arith
    | inr (dominator, found) ↦ elim (Option-cases (get (dex, staker) s.stakings)) [
      | inl missing ↦ ground arith
      | inr (staking, staked) ↦
          let d : Distribution = record {
            from_season = staking.from_season;
            to_season = current_season c now dominator.start_from;
            staking = staking.amount;
          } in
          elim (Result-cases (take_shares c staker dex d s)) [
            | inl (e, failed) ↦ ground arith
            | inr ((season, s₁), taken) ↦
                let f = take_shares-Follows staker dex season d s s₁ taken v in
                Follows-trans c laws s s₁ s' f
                  (aside-Follows c laws s₁ s' (ground arith) (ground arith) f.valid)
          ]
    ]
  ]
