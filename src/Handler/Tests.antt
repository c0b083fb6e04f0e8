-- ===== src/Handler/Tests.antt =====
-- The theorems on outgoing transfers at a concrete state.
use fusotao.Prelude.{
  ℕ, ◌+◌, ◌-◌, ◌*◌, ◌/◌, ◌^◌, ◌≤◌, ◌<◌, ◌≡◌, refl, true, none, some, [], ◌∷◌, arith, nat_eq,
  pair_eq, bytes_eq,
}
use fusotao.Support.Storage.{get, insert, get-insert}
use fusotao.Support.Dispatch.{ok, err}
use fusotao.Support.XToken.{Bytes}
use fusotao.Support.Purse.{Purse, purse, pay, balance_of}
use fusotao.Support.Resource.{derive_resource_id, decode_resource_id}
use fusotao.Token.Decimals.{
  multiply_by_ten, divide_by_ten, transform_decimals_to_standard, transform_decimals_to_external,
}
use fusotao.Bridge.Types.{Event}
use fusotao.Bridge.Transfers.{bump_nonce, transfer_with, transfer_fungible}
use fusotao.Bridge.Sample.{small_bridge, three_relayers, is_root}
use fusotao.Handler.Types.{Config, State, calculate_bridging_fee}
use fusotao.Handler.Outgoing.{do_lock, do_burn_assets}
use fusotao.Handler.Locked.{TransfersAlone, do_lock-announced}
use fusotao.Handler.Burned.{do_burn_assets-announced}

abbrev handler : Config
handler = record {
  asset = purse;
  bridge = small_bridge;
  is_bridge_admin = is_root;
  native_token_max_value = 10 ^ 24;
  donor_account = 50;
  donation_for_agent = 1;
  treasury_account = 60;
  get_price = λ token a. 10 ^ 18;
  from_rational = λ p q. p * 10 ^ 18 / q;
  try_get_asset_id = λ chain contract a. some 2;
  token_external_decimals = λ token a. ok 6;
  to_asset_balance = λ amount token a. some amount;
  mint_into = λ token who amount a. ok a;
  burn_from = λ token who amount a. ok a;
  authorize_to = λ who dominator token amount a. ok a;
  account_nonce = λ who a. 1;
}

abbrev start : State handler
start = record {
  native_check = true;
  bridging_fee = [];
  associated_dominator = [];
  chain = three_relayers;
  assets = (0, (1, 100 * 10 ^ 18) ∷ []);
}

-- The contract 9 on chain 5.
abbrev gold_id : Bytes
gold_id = elim (derive_resource_id 5 1 (9 ∷ [])) [ none ↦ [] | some r ↦ r ]

purse-TransfersAlone : TransfersAlone purse
purse-TransfersAlone from to amount moved who s s' h n = ground (
  arith,
  get-insert from who (balance_of from s - amount) (insert to (balance_of to s + amount) s.1),
  get-insert to who (balance_of to s + amount) s.1,
)

abbrev locked : State handler
locked = elim (do_lock handler 1 (10 * 10 ^ 18) [] [] 7 start) [ ok s ↦ s | err e ↦ start ]

locks : do_lock handler 1 (10 * 10 ^ 18) [] [] 7 start ≡ ok locked
unfolding do_lock calculate_bridging_fee transfer_fungible transfer_with bump_nonce get insert
locks = refl

-- Eight are locked, and two are the fee.
do_lock-announced_example :
    (sent n : ℕ) × (sent + calculate_bridging_fee handler 7 0 start ≡ 10 * 10 ^ 18)
    × (calculate_bridging_fee handler 7 0 start < sent)
    × (balance_of 999 locked.assets ≡ balance_of 999 start.assets + sent)
    × (balance_of 60 locked.assets
        ≡ balance_of 60 start.assets + calculate_bridging_fee handler 7 0 start)
    × (balance_of 1 locked.assets + 10 * 10 ^ 18 ≡ balance_of 1 start.assets)
    × (locked.chain.events ≡ Event.fungible_transfer 7 n [] sent [] ∷ [])
do_lock-announced_example =
    do_lock-announced handler purse-TransfersAlone 1 (10 * 10 ^ 18) [] [] 7 start locked locks
      (ground arith) (ground arith) (ground arith) (ground arith)
      (unfold calculate_bridging_fee get in ground arith)

abbrev burned_gold : State handler
burned_gold = elim (do_burn_assets handler 1 5_000_000 gold_id [] 7 start) [
  | ok s ↦ s
  | err e ↦ start
]

burns : do_burn_assets handler 1 5_000_000 gold_id [] 7 start ≡ ok burned_gold
unfolding do_burn_assets calculate_bridging_fee transfer_fungible transfer_with bump_nonce get
    insert derive_resource_id decode_resource_id transform_decimals_to_standard
    transform_decimals_to_external multiply_by_ten divide_by_ten
burns = refl

gold_id_named : decode_resource_id gold_id ≡ some (5, (1, 9 ∷ []))
unfolding derive_resource_id decode_resource_id
gold_id_named = refl

do_burn_assets-announced_example :
    (burned charged moved n : ℕ) × (a : Purse) × (pay 1 charged 60 start.assets ≡ ok (moved, a))
    × (ok a ≡ ok burned_gold.assets)
    × (burned_gold.chain.events ≡ Event.fungible_transfer 7 n gold_id burned [] ∷ [])
    × (transform_decimals_to_standard burned 6 + charged
        ≡ transform_decimals_to_standard 5_000_000 6)
    × (calculate_bridging_fee handler 7 2 start ≤ charged)
    × (charged < calculate_bridging_fee handler 7 2 start + 10 ^ (18 - 6))
do_burn_assets-announced_example =
    do_burn_assets-announced handler 1 5_000_000 gold_id [] 7 5 1 2 6 (9 ∷ []) start burned_gold
      burns gold_id_named refl refl (ground arith)
      (unfold transform_decimals_to_standard multiply_by_ten in ground arith)
      (unfold calculate_bridging_fee get in ground arith)
