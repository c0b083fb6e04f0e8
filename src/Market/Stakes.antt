-- ===== src/Market/Stakes.antt =====
-- The system account of pallets/market covers the stakes of the brokers.
use fusotao.Prelude.{
  ℕ, ◌+◌, ◌≤◌, ◌≡◌, ap, ◌≢◌, inl, inr, none, some, List, [], ◌∷◌, arith, ◌==◌, Bool-cases,
  Option-cases, nat_eq, pair_eq, bytes_eq,
}
use fusotao.Support.Storage.{get, sum_by, sum_by-put}
use fusotao.Support.Dispatch.{Origin, Result-cases, ok, root, unsigned, signed}
use fusotao.Support.XToken.{Bytes}
use fusotao.Support.Asset.{Asset}
use fusotao.Market.Types.{Broker, State, Config}
use fusotao.Market.Brokers.{register_broker, deregister_broker, broker_set_rpc_endpoint}
use fusotao.Market.Pairs.{register_market, open_market, close_market, apply_for_token_listing}
use fusotao.Market.History.{
  Call, after, apply, run, registers_broker, deregisters_broker, sets_rpc_endpoint,
  applies_for_listing, opens, closes,
}

-- A transfer of the native token between two accounts takes the amount from the one's free balance and
-- adds it to the other's.
abbrev pub Transfers : Asset → Type 0
Transfers a =
    (from to amount moved : ℕ) (s s' : a.Store)
    → a.transfer_token from a.native_token_id amount to s ≡ ok (moved, s')
    → from ≢ to
    → (a.free_balance a.native_token_id to s' ≡ a.free_balance a.native_token_id to s + amount)
      × (a.free_balance a.native_token_id from s' + amount
          ≡ a.free_balance a.native_token_id from s)

abbrev pub stake_of : ℕ → Broker → ℕ
stake_of who b = b.staked

module _ (c : Config) where
  open c use {asset}

  abbrev pub IsCovered : State asset.Store → Type 0
  IsCovered s =
      sum_by stake_of s.brokers ≤ asset.free_balance asset.native_token_id c.system_account s.assets

  -- The system account has no key: it signs no call.
  abbrev pub IsForeign : Call → Type 0
  IsForeign (registers_broker origin broker url name) = origin ≢ signed c.system_account
  IsForeign (deregisters_broker origin broker) = origin ≢ signed c.system_account
  IsForeign _ = Unit

  abbrev pub AreForeign : List (ℕ × Call) → Type 0
  AreForeign [] = Unit
  AreForeign ((now, call) ∷ calls) = IsForeign call × AreForeign calls

module _ (c : Config) (transfers : Transfers c.asset) where
  open c use {asset}

  register_broker-IsCovered :
      (now : ℕ) (origin : Origin) (broker : ℕ) (url name : Bytes) (s s' : State asset.Store)
      → register_broker c now origin broker url name s ≡ ok s'
      → origin ≢ signed c.system_account
      → IsCovered c s
      → IsCovered c s'
  unfolding register_broker
  register_broker-IsCovered now root broker url name s s' h n b = cc
  register_broker-IsCovered now unsigned broker url name s s' h n b = cc
  register_broker-IsCovered now (signed who) broker url name s s' h n b =
      elim (Result-cases (
        asset.transfer_token who asset.native_token_id c.broker_staking_threshold c.system_account
          s.assets)) [
            | inl (e, failed) ↦ ground arith
            | inr ((moved, assets), paid) ↦
                let new : Broker = record {
                  beneficiary = who;
                  staked = c.broker_staking_threshold;
                  register_at = now;
                  rpc_endpoint = url;
                  name = name;
                } in
                elim (Option-cases (get broker s.brokers)) [
                  | inl missing ↦ ground (
                    arith,
                    sum_by-put stake_of broker (some new) s.brokers,
                    transfers who c.system_account c.broker_staking_threshold moved s.assets assets
                        paid (λ e. n (ap signed e)),
                  )
                  | inr (old, found) ↦ ground arith
                ]
          ]

  deregister_broker-IsCovered :
      (origin : Origin) (broker : ℕ) (s s' : State asset.Store)
      → deregister_broker c origin broker s ≡ ok s'
      → origin ≢ signed c.system_account
      → IsCovered c s
      → IsCovered c s'
  unfolding deregister_broker
  deregister_broker-IsCovered root broker s s' h n b = cc
  deregister_broker-IsCovered unsigned broker s s' h n b = cc
  deregister_broker-IsCovered (signed who) broker s s' h n b =
      elim (Option-cases (get broker s.brokers)) [
        | inl missing ↦ ground arith
        | inr (old, found) ↦
            elim (Result-cases (
              asset.transfer_token c.system_account asset.native_token_id old.staked old.beneficiary
                s.assets)) [
                  | inl (e, failed) ↦ ground arith
                  | inr ((moved, assets), paid) ↦ elim (Bool-cases (old.beneficiary == who)) [
                    | inl same ↦
                        let apart : c.system_account ≢ old.beneficiary =
                          λ e. n (ap signed (ground arith)) in
                        ground (
                          arith,
                          sum_by-put stake_of broker none s.brokers,
                          transfers c.system_account old.beneficiary old.staked moved s.assets
                              assets paid apart,
                        )
                    | inr other ↦ ground arith
                  ]
                ]
      ]

  apply-IsCovered :
      (now : ℕ) (call : Call) (s s' : State asset.Store)
      → apply c now call s ≡ ok s'
      → IsForeign c call
      → IsCovered c s
      → IsCovered c s'
  unfolding apply broker_set_rpc_endpoint apply_for_token_listing register_market open_market
      close_market
  apply-IsCovered now (registers_broker origin broker url name) s s' h n b =
      register_broker-IsCovered now origin broker url name s s' h n b
  apply-IsCovered now (deregisters_broker origin broker) s s' h n b =
      deregister_broker-IsCovered origin broker s s' h n b
  apply-IsCovered now (sets_rpc_endpoint root broker url) s s' h n b = cc
  apply-IsCovered now (sets_rpc_endpoint unsigned broker url) s s' h n b = cc
  apply-IsCovered now (sets_rpc_endpoint (signed who) broker url) s s' h n b =
      elim (Option-cases (get broker s.brokers)) [
        | inl missing ↦ ground arith
        | inr (old, found) ↦
            ground (
              arith,
              sum_by-put stake_of broker (some (record old { rpc_endpoint = url })) s.brokers,
            )
      ]
  apply-IsCovered now
        (applies_for_listing origin dominator base quote base_scale quote_scale min_base) s s' h n
        b =
      ground arith
  apply-IsCovered now (opens dominator base quote base_scale quote_scale min_base) s s' h n b =
      ground arith
  apply-IsCovered now (closes dominator base quote) s s' h n b = ground arith

  after-IsCovered :
      (now : ℕ) (call : Call) (s : State asset.Store)
      → IsForeign c call
      → IsCovered c s
      → IsCovered c (after s (apply c now call s))
  after-IsCovered now call s n b = elim (Result-cases (apply c now call s)) [
    | inl (e, failed) ↦ rw failed b
    | inr (s', done) ↦ rw done (apply-IsCovered now call s s' done n b)
  ]

  -- The system account's free balance covers the stakes of all brokers over any history of calls,
  -- failed ones included, from a state where it does, when the system account itself signs none and
  -- a transfer moves the amount between two accounts.
  pub run-IsCovered :
      (calls : List (ℕ × Call)) (s : State asset.Store)
      → AreForeign c calls
      → IsCovered c s
      → IsCovered c (run c calls s)
  unfolding run
  run-IsCovered [] s n b = b
  run-IsCovered ((now, call) ∷ calls) s (n, ns) b =
      run-IsCovered calls (after s (apply c now call s)) ns (after-IsCovered now call s n b)
