-- ===== src/Token/Views.antt =====
-- What pallets/token/src/lib.rs answers about a token: the rest of `impl Token`, `fungibles::Inspect`
-- and `Mutate`, the conversion of amounts, and the look-ups by the two bridges.
use fusotao.Prelude.{
  ℕ, ◌+◌, ◌%◌, Bool, false, ◌||◌, Option, none, some, ◌==◌, leb, if◌then◌else◌, nat_eq, pair_eq,
  bytes_eq, u128_mod,
}
use fusotao.Support.Storage.{get, contains_key}
use fusotao.Support.Dispatch.{Result, ok, err, ok_or, ◌>>=◌, TokenError}
use fusotao.Support.XToken.{
  XToken, nep141, erc20, bep20, polygon, fnd10, Bytes, is_stable, standard_decimals,
}
use fusotao.Token.Types.{or_default, State, Config}
use fusotao.Token.Decimals.{transform_decimals_to_standard}
use fusotao.Token.Accounts.{fail, free_balance}
use fusotao.Token.Supply.{do_mint, do_burn}

-- The `match token` of `token_external_decimals`.
abbrev pub decimals_of : XToken → Result ℕ
decimals_of (nep141 _ _ _ _ decimals) = ok decimals
decimals_of (erc20 _ _ _ _ decimals) = ok decimals
decimals_of (polygon _ _ _ _ decimals) = ok decimals
decimals_of (bep20 _ _ _ _ decimals) = ok decimals
decimals_of (fnd10 _ _) = err (fail TokenError.token_not_found)

-- The `match info` of `to_asset_balance`.
abbrev pub converted : ℕ → XToken → ℕ
converted balance (nep141 _ _ _ _ decimals) = transform_decimals_to_standard balance decimals
converted balance (erc20 _ _ _ _ decimals) = transform_decimals_to_standard balance decimals
converted balance (polygon _ _ _ _ decimals) = transform_decimals_to_standard balance decimals
converted balance (bep20 _ _ _ _ decimals) = transform_decimals_to_standard balance decimals
converted balance (fnd10 _ _) = balance

pub data DepositConsequence : Type 0 where
  success unknown_asset : DepositConsequence

pub data WithdrawConsequence : Type 0 where
  success no_funds : WithdrawConsequence

-- `try_get_token_id`: the contract of a token of NEAR.
abbrev pub near_contract : Option XToken → Option Bytes
near_contract none = none
near_contract (some (nep141 _ name _ _ _)) = some name
near_contract (some (erc20 _ _ _ _ _)) = none
near_contract (some (polygon _ _ _ _ _)) = none
near_contract (some (bep20 _ _ _ _ _)) = none
near_contract (some (fnd10 _ _)) = none

module _ (c : Config) where
  unfoldable pub exists : ℕ → State c.Native → Bool
  exists token s = token == c.native_token_id || contains_key token s.tokens

  unfoldable pub is_stable_token : ℕ → State c.Native → Bool
  is_stable_token token s =
      if token == c.native_token_id
      then false
      else elim (get token s.tokens) [ none ↦ false | some t ↦ is_stable t ]

  unfoldable pub token_external_decimals : ℕ → State c.Native → Result ℕ
  token_external_decimals token s = if token == c.native_token_id then ok standard_decimals else (do
    info ← ok_or (get token s.tokens) (fail TokenError.token_not_found)
    decimals_of info)

  unfoldable pub to_asset_balance : ℕ → ℕ → State c.Native → Result ℕ
  to_asset_balance balance token_id s = if token_id == c.native_token_id then ok balance else (do
    info ← ok_or (get token_id s.tokens) (fail TokenError.token_not_found)
    ok (converted balance info))

  unfoldable pub chain_id_of : XToken → ℕ
  chain_id_of (nep141 _ _ _ _ _) = c.near_chain_id
  chain_id_of (erc20 _ _ _ _ _) = c.eth_chain_id
  chain_id_of (polygon _ _ _ _ _) = c.polygon_chain_id
  chain_id_of (bep20 _ _ _ _ _) = c.bnb_chain_id
  chain_id_of (fnd10 _ _) = c.native_chain_id

  -- `balance.free + balance.reserved` on `u128` wraps in the release build.
  unfoldable pub balance : ℕ → ℕ → State c.Native → ℕ
  balance asset who s =
      let b = or_default (get (asset, who) s.balances) in (b.free + b.reserved) % u128_mod

  unfoldable pub reducible_balance : ℕ → ℕ → State c.Native → ℕ
  reducible_balance asset who s = free_balance c asset who s

  unfoldable pub can_deposit : ℕ → State c.Native → DepositConsequence
  can_deposit asset s = elim (get asset s.tokens) [
    | some _ ↦ DepositConsequence.success
    | none ↦ DepositConsequence.unknown_asset
  ]

  unfoldable pub can_withdraw : ℕ → ℕ → ℕ → State c.Native → WithdrawConsequence
  can_withdraw asset who amount s =
      if leb amount (free_balance c asset who s)
      then WithdrawConsequence.success
      else WithdrawConsequence.no_funds

  unfoldable pub mint_into : ℕ → ℕ → ℕ → State c.Native → Result (State c.Native)
  mint_into asset who amount s = do_mint c asset who amount s

  -- `slash` has the same body.
  unfoldable pub burn_from : ℕ → ℕ → ℕ → State c.Native → Result (ℕ × State c.Native)
  burn_from asset who amount s = do_burn c asset who amount s

  unfoldable pub slash : ℕ → ℕ → ℕ → State c.Native → Result (ℕ × State c.Native)
  slash asset who amount s = do_burn c asset who amount s

  -- `TokenIdAndAssetIdProvider`, used by the octopus bridge
  unfoldable pub get_token_from_octopus : Bytes → State c.Native → Option ℕ
  get_token_from_octopus name s = get name s.token_by_name

  unfoldable pub try_get_token_id : ℕ → State c.Native → Option Bytes
  try_get_token_id asset_id s = near_contract (get asset_id s.tokens)

  -- `AssetIdResourceIdProvider`, used by the chainbridge
  unfoldable pub get_token_from_chainbridge : ℕ → Bytes → State c.Native → Option ℕ
  get_token_from_chainbridge chain_id contract_id s =
      get (chain_id, contract_id) s.token_by_contract
