-- ===== src/Verifier/OrderTests.antt =====
-- Orders that are verified, and the theorems on them at these inputs.
use fusotao.Prelude.{◌%◌, u128_mod, ◌≡◌, refl, [], ◌∷◌, nat_eq, pair_eq}
use fusotao.Support.Bytes.{from_le_bytes}
use fusotao.Support.Storage.{get}
use fusotao.Support.Dispatch.{ok}
use fusotao.Verifier.Reserves.{has_authorized_exactly_on}
use fusotao.Verifier.Leaf.{
  try_get_account, try_get_symbol, try_get_orderpage, split_old_to_sum, split_new_to_sum, leaf_at,
  split_old_to_u128, split_new_to_u128,
}
use fusotao.Verifier.Clearing.{ClearingResult, Order, ask_maker, ask_makers, ask_pages}
use fusotao.Verifier.Ask.{ask_taker, ask_book, ask_traded, best_prices, verify_ask_limit}
use fusotao.Verifier.Ask.Balance.{verify_ask_limit-IsConserved}
use fusotao.Verifier.Conserved.{total, IsConserved}
use fusotao.Verifier.Sample.{symbol_leaf, page_leaf, fuso, books, account_leaf}

-- An ask of 10 at price 5 by account 8, which fills a bid of account 7.
abbrev ask : Order
ask = record {
  price = 5;
  amount = 10;
  maker_fee = 0;
  taker_fee = 0;
  base = 1;
  quote = 2;
  maker_accounts = 2;
  pages = 1;
  dominator = 100;
  leaves =
      symbol_leaf 1 1 2 (0, 10) (0, 0)
      ∷ account_leaf 7 1 (10, 0) (20, 0)
      ∷ account_leaf 7 2 (0, 50) (0, 0)
      ∷ account_leaf 8 1 (10, 0) (0, 0)
      ∷ account_leaf 8 2 (0, 0) (50, 0)
      ∷ symbol_leaf 2 1 2 (0, 5) (0, 0)
      ∷ page_leaf 1 2 5 (0, 10) (0, 0)
      ∷ [];
}

cleared : ClearingResult
cleared = record {
  makers = record { who = 7; filled_volume = 50; base_balance = 20; quote_balance = 0 } ∷ [];
  taker = record {
    who = 8;
    unfilled_volume = 0;
    filled_volume = 50;
    filled_amount = 10;
    base_balance = 0;
    quote_balance = 50;
  };
  base_fee = 0;
  quote_fee = 0;
}

clears : verify_ask_limit fuso ask books ≡ ok cleared
unfolding cleared books verify_ask_limit ask_taker ask_makers ask_maker ask_book ask_traded
    ask_pages best_prices has_authorized_exactly_on get try_get_account try_get_symbol
    try_get_orderpage leaf_at split_old_to_u128 split_new_to_u128 split_old_to_sum split_new_to_sum
    from_le_bytes
clears = refl

verify_ask_limit-IsConserved_example :
    IsConserved fuso ask cleared books
    × (total (λ m. m.filled_volume) cleared.makers % u128_mod
        ≡ cleared.taker.filled_volume % u128_mod)
    × (cleared.base_fee ≡ fuso.mul_ceil 0 cleared.taker.filled_amount)
    × (cleared.quote_fee ≡ fuso.mul_ceil 0 cleared.taker.filled_volume)
verify_ask_limit-IsConserved_example = verify_ask_limit-IsConserved fuso ask cleared books clears

-- A bid for 10 at price 5 by account 8, which fills an ask of account 7.
abbrev bid : Order
bid = record ask {
  leaves =
      symbol_leaf 1 1 2 (10, 0) (0, 0)
      ∷ account_leaf 7 1 (0, 10) (0, 0)
      ∷ account_leaf 7 2 (0, 0) (50, 0)
      ∷ account_leaf 8 1 (0, 0) (10, 0)
      ∷ account_leaf 8 2 (50, 0) (0, 0)
      ∷ symbol_leaf 2 1 2 (5, 0) (0, 0)
      ∷ page_leaf 1 2 5 (10, 0) (0, 0)
      ∷ [];
}

bought : ClearingResult
bought = record {
  makers = record { who = 7; filled_volume = 50; base_balance = 0; quote_balance = 50 } ∷ [];
  taker = record {
    who = 8;
    unfilled_volume = 0;
    filled_volume = 50;
    filled_amount = 10;
    base_balance = 10;
    quote_balance = 0;
  };
  base_fee = 0;
  quote_fee = 0;
}
