-- ===== src/Support/Asset.antt =====
-- pallets/fuso-support/src/traits.rs: the traits `Token` and `ReservableToken` as an interface to a
-- store of balances, with the laws on reserved balances that the pallets above it rely on.
use fusotao.Prelude.{ℕ, ◌+◌, ◌≡◌, Bool, ◌&&◌, ◌==◌, if◌then◌else◌}
use fusotao.Support.Dispatch.{Result, ok, ◌>>=◌}

-- `TokenAccountData` of pallets/token/src/lib.rs
pub record Account : Type 0 where
  pub free : ℕ
  pub reserved : ℕ

pub data BalanceStatus : Type 0 where
  free reserved : BalanceStatus

-- Tokens, accounts and amounts are numbers. The closure of `try_mutate_account` works on the two
-- balances, and may change the store as well.
pub record Asset : Type 1 where
  pub Store : Type 0
  pub native_token_id : ℕ
  pub exists : ℕ → Store → Bool
  pub is_stable : ℕ → Store → Bool
  pub free_balance : ℕ → ℕ → Store → ℕ
  pub reserved_balance : ℕ → ℕ → Store → ℕ
  pub can_reserve : ℕ → ℕ → ℕ → Store → Bool
  pub transfer_token : ℕ → ℕ → ℕ → ℕ → Store → Result (ℕ × Store)
  pub try_mutate_account :
      ℕ → ℕ → (Account → Store → Result (Account × Store)) → Store → Result Store
  pub try_mutate_issuance : ℕ → (ℕ → Result ℕ) → Store → Result Store
  pub reserve : ℕ → ℕ → ℕ → Store → Result Store
  pub unreserve : ℕ → ℕ → ℕ → Store → Result Store

-- A closure on the two balances that leaves the store alone.
abbrev pub on_account :
    {S : Type 0} → (Account → Result Account) → Account → S → Result (Account × S)
on_account f b s = f b >>= λ b'. ok (b', s)

-- The account of `who` in `token`, as a mutation finds it.
abbrev pub account : (a : Asset) → ℕ → ℕ → a.Store → Account
account a token who s = record {
  free = a.free_balance token who s;
  reserved = a.reserved_balance token who s;
}

-- `v` at the account that an operation names, and nothing elsewhere.
abbrev pub only_at : ℕ → ℕ → ℕ → ℕ → ℕ → ℕ
only_at token who token' who' v = if token == token' && who == who' then v else 0

-- Reserving moves the amount into the reserved balance of that account alone, unreserving moves it
-- out, and a mutation leaves the reserved balance that its closure says. All keep the store valid.
pub record ReserveLaws (a : Asset) : Type 1 where
  pub IsValid : a.Store → Type 0
  pub reserve-IsValid :
      (t w v : ℕ) (s s' : a.Store) → a.reserve t w v s ≡ ok s' → IsValid s → IsValid s'
  pub unreserve-IsValid :
      (t w v : ℕ) (s s' : a.Store) → a.unreserve t w v s ≡ ok s' → IsValid s → IsValid s'
  pub mutate-IsValid :
      (t w : ℕ) (f : Account → Result Account) (s s' : a.Store)
      → a.try_mutate_account t w (on_account f) s ≡ ok s'
      → IsValid s
      → IsValid s'
  pub reserved-reserve :
      (t w v t' w' : ℕ) (s s' : a.Store)
      → a.reserve t w v s ≡ ok s'
      → IsValid s
      → a.reserved_balance t' w' s' ≡ a.reserved_balance t' w' s + only_at t w t' w' v
  pub reserved-unreserve :
      (t w v t' w' : ℕ) (s s' : a.Store)
      → a.unreserve t w v s ≡ ok s'
      → IsValid s
      → a.reserved_balance t' w' s' + only_at t w t' w' v ≡ a.reserved_balance t' w' s
  pub reserved-mutate :
      (t w t' w' : ℕ) (f : Account → Result Account) (b : Account) (s s' : a.Store)
      → f (account a t w s) ≡ ok b
      → a.try_mutate_account t w (on_account f) s ≡ ok s'
      → IsValid s
      → a.reserved_balance t' w' s'
        ≡ (if t == t' && w == w' then b.reserved else a.reserved_balance t' w' s)
  pub mutate-eq-ok :
      (t w : ℕ) (f : Account → Result Account) (s s' : a.Store)
      → a.try_mutate_account t w (on_account f) s ≡ ok s'
      → (b : Account) × (f (account a t w s) ≡ ok b)
