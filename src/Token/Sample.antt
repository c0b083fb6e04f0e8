-- ===== src/Token/Sample.antt =====
-- A runtime for tests: the constants of runtime/src/lib.rs, and a ledger in place of pallet_balances
-- that keeps free and reserved balances and no existential deposit.
use fusotao.Prelude.{
  ℕ, ◌+◌, ◌-◌, ◌*◌, ◌^◌, Bool, true, false, [], ◌∷◌, ◌&&◌, ltb, leb, if◌then◌else◌, nat_eq,
}
use fusotao.Support.Storage.{StorageMap, get, insert}
use fusotao.Support.Dispatch.{Result, ok, err, DispatchError, Origin, root, signed, unsigned}
use fusotao.Support.XToken.{Bytes, XToken, nep141, fnd10}
use fusotao.Support.Asset.{Account, BalanceStatus}
use fusotao.Token.Types.{or_default, Config, State}

pub record Ledger : Type 0 where
  pub issuance : ℕ
  pub accounts : StorageMap ℕ Account

abbrev pub native_account : ℕ → Ledger → Account
native_account who n = or_default (get who n.accounts)

abbrev pub set_native : ℕ → Account → Ledger → Ledger
set_native who a n = record n { accounts = insert who a n.accounts }

abbrev pub native_transfer : ℕ → ℕ → ℕ → Ledger → Result Ledger
native_transfer from to amount n =
    let a = native_account from n in
    if leb amount a.free
    then (let n' = set_native from (record a { free = a.free - amount }) n in
        let b = native_account to n' in ok (set_native to (record b { free = b.free + amount }) n'))
    else err (DispatchError.balances 2)

abbrev pub native_reserve : ℕ → ℕ → Ledger → Result Ledger
native_reserve who value n =
    let a = native_account who n in
    if leb value a.free
    then ok (set_native who (record { free = a.free - value; reserved = a.reserved + value }) n)
    else err (DispatchError.balances 2)

abbrev pub native_unreserve : ℕ → ℕ → Ledger → Ledger
native_unreserve who value n =
    let a = native_account who n in
    let actual = if leb value a.reserved then value else a.reserved in
    set_native who (record { free = a.free + actual; reserved = a.reserved - actual }) n

abbrev pub native_burn : ℕ → ℕ → Ledger → Result Ledger
native_burn who amount n =
    let a = native_account who n in
    if leb amount a.free
    then ok (record (set_native who (record a { free = a.free - amount }) n) {
      issuance = n.issuance - amount;
    })
    else err (DispatchError.balances 2)

abbrev pub native_repatriate : ℕ → ℕ → ℕ → BalanceStatus → Ledger → Result Ledger
native_repatriate slashed beneficiary value status n =
    let a = native_account slashed n in
    let n' = set_native slashed (record a { reserved = a.reserved - value }) n in
    let b = native_account beneficiary n' in
    ok (
      set_native beneficiary
        (elim status [
          | BalanceStatus.free ↦ record b { free = b.free + value }
          | BalanceStatus.reserved ↦ record b { reserved = b.reserved + value }
        ])
        n')

abbrev pub is_root : Origin → Bool
is_root root = true
is_root unsigned = false
is_root (signed _) = false

abbrev pub all_ascii : Bytes → Bool
all_ascii [] = true
all_ascii (b ∷ bs) = ltb b 128 && all_ascii bs

abbrev pub runtime : Config
runtime = record {
  native_token_id = 0;
  near_chain_id = 255;
  eth_chain_id = 1;
  bnb_chain_id = 56;
  native_chain_id = 42;
  polygon_chain_id = 137;
  burn_ta_when_issue = 10 * 10 ^ 18;
  is_admin = is_root;
  lookup = λ who. ok who;
  is_ascii = all_ascii;
  Native = Ledger;
  free_balance = λ who n. (native_account who n).free;
  reserved_balance = λ who n. (native_account who n).reserved;
  total_issuance = λ n. n.issuance;
  set_issuance = λ v n. record n { issuance = v };
  set_account = λ who a n. ok (set_native who a n);
  transfer = native_transfer;
  burn_from = native_burn;
  can_reserve = λ who value n. leb value (native_account who n).free;
  reserve = native_reserve;
  unreserve = native_unreserve;
  repatriate_reserved = native_repatriate;
}

-- Token 1 is a stable NEP141 token with 6 decimals, held by accounts 7 and 8; token 2 is of the kind
-- FND10.
abbrev pub usdt : XToken
usdt = nep141 (b'u' ∷ b's' ∷ b'd' ∷ []) (b'u' ∷ b's' ∷ b'n' ∷ []) 100 true 6

abbrev pub gold : XToken
gold = fnd10 (b'a' ∷ b'u' ∷ []) 0

abbrev pub state : State Ledger
state = record {
  native = record { issuance = 1000; accounts = (7, record { free = 900; reserved = 100 }) ∷ [] };
  balances =
      ((1, 7), record { free = 60; reserved = 10 })
      ∷ ((1, 8), record { free = 30; reserved = 0 })
      ∷ [];
  tokens = (1, usdt) ∷ (2, gold) ∷ [];
  next_token_id = 3;
  token_by_name = (b'u' ∷ b's' ∷ b'n' ∷ [], 1) ∷ [];
  token_by_contract = [];
  events = [];
}
