-- ===== src/Support/XToken.antt =====
-- pallets/fuso-support/src/external_chain.rs, `XToken`, and the constants of
-- pallets/fuso-support/src/lib.rs. A byte string is a list of numbers.
use fusotao.Prelude.{ℕ, Bool, false, List, []}

abbrev pub Bytes : Type 0
Bytes = List ℕ

-- symbol, contract address, total, stable, decimals; `fnd10` has a symbol and a total
pub data XToken : Type 0 where
  nep141 erc20 bep20 polygon : Bytes → Bytes → ℕ → Bool → ℕ → XToken
  fnd10 : Bytes → ℕ → XToken

abbrev pub is_stable : XToken → Bool
is_stable (nep141 _ _ _ stable _) = stable
is_stable (erc20 _ _ _ stable _) = stable
is_stable (polygon _ _ _ stable _) = stable
is_stable (bep20 _ _ _ stable _) = stable
is_stable (fnd10 _ _) = false

abbrev pub symbol : XToken → Bytes
symbol (nep141 name _ _ _ _) = name
symbol (erc20 name _ _ _ _) = name
symbol (polygon name _ _ _ _) = name
symbol (bep20 name _ _ _ _) = name
symbol (fnd10 name _) = name

abbrev pub contract : XToken → Bytes
contract (nep141 _ address _ _ _) = address
contract (erc20 _ address _ _ _) = address
contract (polygon _ address _ _ _) = address
contract (bep20 _ address _ _ _) = address
contract (fnd10 _ _) = []

abbrev pub standard_decimals : ℕ
standard_decimals = 18

abbrev pub max_decimals : ℕ
max_decimals = 24
