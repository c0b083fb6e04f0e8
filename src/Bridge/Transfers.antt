-- ===== src/Bridge/Transfers.antt =====
-- Transfers out of the chain, which other pallets start: pallets/chainbridge/src/lib.rs.
use fusotao.Prelude.{ℕ, ◌+◌, ◌%◌, Option, none, some, ◌==◌, if◌then◌else◌, nat_eq, u64_mod}
use fusotao.Support.Storage.{get, insert}
use fusotao.Support.Dispatch.{Result, ok, ◌>>◌, ensure, BridgeError, Origin}
use fusotao.Support.XToken.{Bytes}
use fusotao.Bridge.Types.{State, Config, Event, deposit_event, fail}
use fusotao.Bridge.Admin.{chain_whitelisted}

-- `unwrap_or_default`
abbrev pub or_zero : Option ℕ → ℕ
or_zero none = 0
or_zero (some n) = n

module _ (c : Config) where
  open c use {Rest}

  unfoldable pub bump_nonce : ℕ → State Rest → ℕ × State Rest
  bump_nonce id s =
      let nonce = (or_zero (get id s.chain_nonces) + 1) % u64_mod in
      (nonce, record s { chain_nonces = insert id nonce s.chain_nonces })

  -- What the three kinds of transfers share: the event carries the nonce.
  unfoldable pub transfer_with : ℕ → (ℕ → Event) → State Rest → Result (State Rest)
  unfolding bump_nonce
  transfer_with dest_id event s = do
    ensure (chain_whitelisted c dest_id s) (fail BridgeError.chain_not_whitelisted)
    let (nonce, s') = bump_nonce dest_id s
    ok (deposit_event (event nonce) s')

  unfoldable pub transfer_fungible : ℕ → Bytes → Bytes → ℕ → State Rest → Result (State Rest)
  unfolding transfer_with
  transfer_fungible dest_id resource_id to amount s =
      transfer_with dest_id (λ nonce. Event.fungible_transfer dest_id nonce resource_id amount to) s

  unfoldable pub transfer_nonfungible :
      ℕ → Bytes → Bytes → Bytes → Bytes → State Rest → Result (State Rest)
  unfolding transfer_with
  transfer_nonfungible dest_id resource_id token_id to metadata s =
      transfer_with dest_id
        (λ nonce. Event.non_fungible_transfer dest_id nonce resource_id token_id to metadata) s

  unfoldable pub transfer_generic : ℕ → Bytes → Bytes → State Rest → Result (State Rest)
  unfolding transfer_with
  transfer_generic dest_id resource_id metadata s =
      transfer_with dest_id (λ nonce. Event.generic_transfer dest_id nonce resource_id metadata) s

-- `EnsureBridge`: the bridge's own account.
abbrev pub ensure_bridge : Config → Origin → Option ℕ
ensure_bridge c Origin.root = none
ensure_bridge c Origin.unsigned = none
ensure_bridge c (Origin.signed who) = if who == c.account_id then some who else none
