-- ===== src/Handler/Types.antt =====
-- The storage of pallets/chainbridge-handler/src/lib.rs beside that of the bridge and the assets, and
-- what its `Config` supplies.
use fusotao.Prelude.{
  ℕ, ◌+◌, ◌*◌, ◌/◌, ◌%◌, ◌^◌, Bool, false, ◌&&◌, ◌||◌, Option, none, some, ◌==◌, if◌then◌else◌,
  nat_eq, pair_eq, bytes_eq, u128_mod,
}
use fusotao.Support.Storage.{StorageMap, get, insert}
use fusotao.Support.Dispatch.{
  HandlerError, DispatchError, Result, ◌>>◌, ensure, Origin, ensure_root, ok,
}
use fusotao.Support.XToken.{Bytes}
use fusotao.Support.Asset.{Asset}
use fusotao.Support.Resource.{decode_resource_id}

-- What the runtime supplies. `authorize_to` is the verifier's, `get_price` the oracle's, and
-- `from_rational` the parts of a `Perquintill` of sp_arithmetic.
pub record Config : Type 1 where
  pub asset : Asset
  pub bridge : fusotao.Bridge.Types.Config
  pub is_bridge_admin : Origin → Bool
  pub native_token_max_value : ℕ
  pub donor_account : ℕ
  pub donation_for_agent : ℕ
  pub treasury_account : ℕ
  pub get_price : ℕ → asset.Store → ℕ
  pub from_rational : ℕ → ℕ → ℕ
  pub try_get_asset_id : ℕ → Bytes → asset.Store → Option ℕ
  pub token_external_decimals : ℕ → asset.Store → Result ℕ
  pub to_asset_balance : ℕ → ℕ → asset.Store → Option ℕ
  pub mint_into : ℕ → ℕ → ℕ → asset.Store → Result asset.Store
  pub burn_from : ℕ → ℕ → ℕ → asset.Store → Result asset.Store
  pub authorize_to : ℕ → ℕ → ℕ → ℕ → asset.Store → Result asset.Store
  pub account_nonce : ℕ → asset.Store → ℕ

pub record State (c : Config) : Type 0 where
  pub native_check : Bool
  pub bridging_fee : StorageMap ℕ ℕ
  pub associated_dominator : StorageMap ℕ ℕ
  pub chain : fusotao.Bridge.Types.State c.bridge.Rest
  pub assets : c.asset.Store

abbrev pub fail : HandlerError → DispatchError
fail = DispatchError.handler

abbrev pub quintill : ℕ
quintill = 10 ^ 18

-- `DefaultBridgingFee`
abbrev pub or_default_fee : Option ℕ → ℕ
or_default_fee none = quintill * 2
or_default_fee (some fee) = fee

module _ (c : Config) where
  open c use {asset}

  unfoldable pub native_limit : Origin → Bool → State c → Result (State c)
  native_limit origin value s = do ensure_root origin; ok (record s { native_check = value })

  unfoldable pub associate_dominator : Origin → ℕ → ℕ → State c → Result (State c)
  associate_dominator origin associate_id dominator s = do
    ensure (c.bridge.is_admin origin) DispatchError.bad_origin
    ok (record s { associated_dominator = insert associate_id dominator s.associated_dominator })

  unfoldable pub update_bridge_fee : Origin → ℕ → ℕ → State c → Result (State c)
  update_bridge_fee origin chain_id fee s = do
    ensure (c.is_bridge_admin origin) DispatchError.bad_origin
    ok (record s { bridging_fee = insert chain_id fee s.bridging_fee })

  -- A resource is the native one when it names the same chain and the same contract.
  unfoldable pub is_native_resource : Bytes → Bool
  is_native_resource r_id = elim (decode_resource_id r_id) [
    | none ↦ false
    | some (origin, (_, p)) ↦ elim (decode_resource_id c.bridge.native_resource_id) [
      | none ↦ false
      | some (native, (_, p0)) ↦ native == origin && bytes_eq.beq p p0
    ]
  ]

  -- The fee in the token, from the fee in USD; nothing where the oracle has no price. The plain `*` and
  -- `+` wrap.
  unfoldable pub calculate_bridging_fee : ℕ → ℕ → State c → ℕ
  calculate_bridging_fee dest_chain_id token_id s =
      let price = c.get_price token_id s.assets in
      let usd = or_default_fee (get dest_chain_id s.bridging_fee) in
      if price == 0 || usd == 0
      then 0
      else (usd / price * quintill % u128_mod + c.from_rational (usd % price) price) % u128_mod
