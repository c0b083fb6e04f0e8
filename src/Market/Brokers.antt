-- ===== src/Market/Brokers.antt =====
-- The broker's dispatchables of pallets/market/src/lib.rs, and `impl FeeBeneficiary`.
use fusotao.Prelude.{ℕ, not, none, some, leb, ◌==◌, nat_eq, pair_eq, bytes_eq, length}
use fusotao.Support.Storage.{get, insert, remove, contains_key}
use fusotao.Support.Dispatch.{
  MarketError, Result, ◌>>=◌, ◌>>◌, ensure, ok_or, Origin, ensure_signed, ok,
}
use fusotao.Support.XToken.{Bytes}
use fusotao.Market.Types.{Event, State, deposit_event, Config, fail}

module _ (c : Config) where
  open c use {asset}

  unfoldable pub register_broker :
      ℕ → Origin → ℕ → Bytes → Bytes → State asset.Store → Result (State asset.Store)
  register_broker now origin broker rpc_endpoint name s = do
    beneficiary ← ensure_signed origin
    ensure (leb (length name) 20) (fail MarketError.broker_name_too_long)
    let requires = c.broker_staking_threshold
    (moved, assets) ←
        asset.transfer_token beneficiary asset.native_token_id requires c.system_account s.assets
    ensure (not (contains_key broker s.brokers)) (fail MarketError.broker_already_registered)
    ok (
        deposit_event (Event.broker_registered broker beneficiary) (record s {
          assets = assets;
          brokers =
              insert broker
                (record {
                  beneficiary = beneficiary;
                  staked = requires;
                  register_at = now;
                  rpc_endpoint = rpc_endpoint;
                  name = name;
                })
                s.brokers;
        }))

  unfoldable pub deregister_broker : Origin → ℕ → State asset.Store → Result (State asset.Store)
  deregister_broker origin broker s = do
    beneficiary ← ensure_signed origin
    b ← ok_or (get broker s.brokers) (fail MarketError.broker_not_found)
    ensure (b.beneficiary == beneficiary) (fail MarketError.broker_not_found)
    (moved, assets) ←
        asset.transfer_token c.system_account asset.native_token_id b.staked b.beneficiary s.assets
    ok (
        deposit_event (Event.broker_deregistered broker)
          (record s { assets = assets; brokers = remove broker s.brokers }))

  unfoldable pub broker_set_rpc_endpoint :
      Origin → ℕ → Bytes → State asset.Store → Result (State asset.Store)
  broker_set_rpc_endpoint origin broker rpc_endpoint s = do
    admin ← ensure_signed origin
    b ← ok_or (get broker s.brokers) (fail MarketError.broker_not_found)
    ensure (b.beneficiary == admin) (fail MarketError.broker_not_found)
    ok (record s { brokers = insert broker (record b { rpc_endpoint = rpc_endpoint }) s.brokers })

  -- `FeeBeneficiary::beneficiary`
  abbrev pub beneficiary_of : ℕ → State asset.Store → ℕ
  beneficiary_of origin s = elim (get origin s.brokers) [ none ↦ origin | some b ↦ b.beneficiary ]
