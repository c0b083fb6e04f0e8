-- ===== src/Support/Purse.antt =====
-- A concrete `Asset` for the tests: a native token alone, with its issuance and the balances.
use fusotao.Prelude.{
  ℕ, ◌+◌, ◌-◌, false, none, some, leb, ◌==◌, if◌then◌else◌, nat_eq, pair_eq, bytes_eq,
}
use fusotao.Support.Storage.{StorageMap, get, insert}
use fusotao.Support.Dispatch.{DispatchError, Result, ◌>>=◌, ok, err}
use fusotao.Support.Asset.{Asset}

abbrev pub Purse : Type 0
Purse = ℕ × StorageMap ℕ ℕ

abbrev pub balance_of : ℕ → Purse → ℕ
balance_of who s = elim (get who s.1) [ none ↦ 0 | some n ↦ n ]

abbrev pub pay : ℕ → ℕ → ℕ → Purse → Result (ℕ × Purse)
pay from amount to s =
    if from == to
    then ok (amount, s)
    else if leb amount (balance_of from s)
    then ok (
      amount,
      (s.0, insert from (balance_of from s - amount) (insert to (balance_of to s + amount) s.1)),
    )
    else err DispatchError.other

abbrev pub purse : Asset
purse = record {
  Store = Purse;
  native_token_id = 0;
  exists = λ token s. leb token 2;
  is_stable = λ token s. token == 1;
  free_balance = λ token who s. balance_of who s;
  reserved_balance = λ token who s. 0;
  can_reserve = λ token who amount s. false;
  transfer_token = λ from token amount to s. pay from amount to s;
  try_mutate_account = λ token who f s.
      f (record { free = balance_of who s; reserved = 0 }) s >>= λ r.
      ok (r.1.0, insert who r.0.free r.1.1);
  try_mutate_issuance = λ token f s. f s.0 >>= λ v. ok (v, s.1);
  reserve = λ token who amount s. err DispatchError.other;
  unreserve = λ token who amount s. err DispatchError.other;
}
