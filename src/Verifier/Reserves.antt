-- ===== src/Verifier/Reserves.antt =====
-- `reserve`, `unreserve`, `clear` and the tests on `Reserves` of pallets/verifier/src/lib.rs.
use fusotao.Prelude.{
  ℕ, ◌-◌, Bool, none, some, ◌==◌, leb, ltb, if◌then◌else◌, checked_add, checked_sub, nat_eq,
  pair_eq,
}
use fusotao.Support.Storage.{get, insert, put}
use fusotao.Support.Dispatch.{Result, ok, ◌>>=◌, ok_or, VerifierError}
use fusotao.Support.Asset.{Account, on_account}
use fusotao.Verifier.Types.{ReserveKey, State, Config, fail, or_zero}
use fusotao.Support.Constants.{reserve_for_authorizing}

module _ (c : Config) where
  open c use {asset}

  -- `Reserves::get` with the default of a missing value
  abbrev pub reserved : ℕ → ℕ → ℕ → ℕ → State asset.Store → ℕ
  reserved id who token dominator s = or_zero (get ((id, (who, token)), dominator) s.reserves)

  unfoldable pub has_authorized_morethan : ℕ → ℕ → ℕ → ℕ → State asset.Store → Bool
  has_authorized_morethan who token_id amount dominator s =
      leb amount (reserved reserve_for_authorizing who token_id dominator s)

  -- The matchers round, so the sums may differ by 10 ^ 11.
  unfoldable pub has_authorized_exactly_on : ℕ → ℕ → ℕ → ℕ → State asset.Store → Bool
  has_authorized_exactly_on who token_id amount dominator s =
      let confirmed = reserved reserve_for_authorizing who token_id dominator s in
      if leb amount confirmed
      then leb (confirmed - amount) 100_000_000_000
      else leb (amount - confirmed) 100_000_000_000

  unfoldable pub reserve : ℕ → ℕ → ℕ → ℕ → ℕ → State asset.Store → Result (State asset.Store)
  reserve reserve_id fund_owner token value to s = if value == 0 then ok s else (do
    let key : ReserveKey = ((reserve_id, (fund_owner, token)), to)
    let held = or_zero (get key s.reserves)
    assets ← asset.reserve token fund_owner value s.assets
    grown ← ok_or (checked_add held value) (fail VerifierError.overflow)
    ok (record s { assets = assets; reserves = insert key grown s.reserves }))

  unfoldable pub unreserve : ℕ → ℕ → ℕ → ℕ → ℕ → State asset.Store → Result (State asset.Store)
  unreserve reserve_id fund_owner token value from s = if value == 0 then ok s else (do
    let key : ReserveKey = ((reserve_id, (fund_owner, token)), from)
    assets ← asset.unreserve token fund_owner value s.assets
    held ← ok_or (get key s.reserves) (fail VerifierError.insufficient_balance)
    left ← ok_or (checked_sub held value) (fail VerifierError.insufficient_balance)
    let kept = if ltb 0 left then some left else none
    ok (record s { assets = assets; reserves = put key kept s.reserves }))

  -- The closure of `clear`: the old reserve leaves the reserved balance, and the new one enters it.
  abbrev pub exchange : ℕ → ℕ → Account → Result Account
  exchange old new b = do
    let rest : ℕ = or_zero (checked_sub b.reserved old)
    grown ← ok_or (checked_add rest new) (fail VerifierError.overflow)
    ok (record b { reserved = grown })

  unfoldable pub clear : ℕ → ℕ → ℕ → ℕ → State asset.Store → Result (State asset.Store)
  clear who dominator token_id balance s = do
    let key : ReserveKey = ((reserve_for_authorizing, (who, token_id)), dominator)
    let held = or_zero (get key s.reserves)
    assets ← asset.try_mutate_account token_id who (on_account (exchange held balance)) s.assets
    ok (record s { assets = assets; reserves = insert key balance s.reserves })
