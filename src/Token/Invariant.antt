-- ===== src/Token/Invariant.antt =====
-- The books of pallets/token: what accounts hold of a token is what its entry records as the total.
use fusotao.Prelude.{
  ℕ, ◌+◌, ◌≤◌, ◌<◌, ◌≡◌, Option, none, some, ◌==◌, if◌then◌else◌, u128_mod, nat_eq, pair_eq,
}
use fusotao.Support.Storage.{get, IsMap, sum_by}
use fusotao.Support.XToken.{XToken, fnd10}
use fusotao.Support.Asset.{Account}
use fusotao.Token.Types.{State}
use fusotao.Token.Supply.{total}

-- What an entry of `Balances` holds of `token`.
abbrev pub held : ℕ → ℕ × ℕ → Account → ℕ
held token key a = if key.0 == token then a.free + a.reserved else 0

-- What all accounts together hold of `token`.
abbrev pub holdings : {Native : Type 0} → ℕ → State Native → ℕ
holdings token s = sum_by (held token) s.balances

-- A token of the kind FND10 has no supply.
abbrev pub IsBarren : Option XToken → Type 0
IsBarren none = Unit
IsBarren (some (fnd10 _ n)) = n ≡ 0
IsBarren (some _) = Unit

-- `backed`: holdings and recorded total agree, for every token; `bounded`: the total is a `u128`;
-- `barren`: tokens of the kind FND10 have no supply; `fresh`: ids from the next one on are free;
-- `keyed`: `Balances` has each key once.
pub record IsBacked {Native : Type 0} (s : State Native) : Type 0 where
  pub backed : (t : ℕ) → holdings t s ≡ total (get t s.tokens)
  pub bounded : (t : ℕ) → total (get t s.tokens) < u128_mod
  pub barren : (t : ℕ) → IsBarren (get t s.tokens)
  pub fresh : (t : ℕ) → s.next_token_id ≤ t → get t s.tokens ≡ none
  pub keyed : IsMap s.balances
