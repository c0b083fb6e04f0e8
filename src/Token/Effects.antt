-- ===== src/Token/Effects.antt =====
-- What the operations of pallets/token do to the accounts they name, and when they succeed.
use fusotao.Prelude.{
  ℕ, ◌+◌, ◌-◌, ◌≤◌, ◌<◌, ◌≡◌, ◌≢◌, sym, refl, Bool-cases, inl, inr, some, ◌∷◌, arith, ◌==◌,
  u128_mod, nat_eq, pair_eq,
}
use fusotao.Support.Storage.{
  get, insert, put, get-insert_self, get-put_self, get-put_ne, insert-IsMap, weights-le-sum_by,
  weight-le-sum_by, insert-insert_self,
}
use fusotao.Support.Dispatch.{ok, err, TokenError}
use fusotao.Support.XToken.{Bytes, fnd10}
use fusotao.Support.Asset.{Account, BalanceStatus}
use fusotao.Token.Types.{or_default, unless_dead, State, Event, Config}
use fusotao.Token.Accounts.{
  fail, transfer_token, transfer_between, reserve, unreserve, repatriate_reserved, free_balance,
  reserved_balance,
}
use fusotao.Token.Supply.{do_mint, grow_total}
use fusotao.Token.Invariant.{held, IsBacked}
use fusotao.Token.Conservation.{entry, pair-ne, reserve-eq-ok}

-- Two accounts together hold no more than the token's total.
entries-bounded :
    {Native : Type 0} (s : State Native) (token a b : ℕ)
    → a ≢ b
    → IsBacked s
    → (entry token a s).free
        + (entry token a s).reserved
        + ((entry token b s).free + (entry token b s).reserved)
      < u128_mod
entries-bounded s token a b ne books = ground (
  arith,
  weights-le-sum_by (held token) (token, a) (token, b) s.balances
      (pair-ne token b a (λ e. ne (sym e))),
  books.backed token,
  books.bounded token,
)

-- What an entry reads after it is written, dropped or not.
or_default-unless_dead : (a : Account) → or_default (unless_dead a) ≡ a
or_default-unless_dead a = ground arith

module _ (c : Config) where
  -- With the books in order, a transfer of a token of this pallet between two accounts succeeds
  -- whenever the free balance covers it: no sum overflows. It moves exactly the amount, between the
  -- free balances alone.
  pub transfer_token-covered :
      (origin token amount target : ℕ) (s : State c.Native)
      → token ≢ c.native_token_id
      → origin ≢ target
      → amount ≢ 0
      → amount ≤ free_balance c token origin s
      → IsBacked s
      → (s' : State c.Native) × (transfer_token c origin token amount target s ≡ ok (amount, s'))
        × (free_balance c token origin s' + amount ≡ free_balance c token origin s)
        × (free_balance c token target s' ≡ free_balance c token target s + amount)
        × (reserved_balance c token origin s' ≡ reserved_balance c token origin s)
        × (reserved_balance c token target s' ≡ reserved_balance c token target s)
  unfolding transfer_token transfer_between free_balance reserved_balance
  transfer_token-covered origin token amount target s foreign ne nz covered books =
      let from = entry token origin s in
      let to = entry token target s in
      let grown : Account = record to { free = to.free + amount } in
      let left = unless_dead (record from { free = from.free - amount }) in
      let credited = insert (token, target) grown s.balances in
      let keyed = insert-IsMap (token, target) grown s.balances books.keyed in
      (
        record s {
          balances = put (token, origin) left credited;
          events = Event.token_transfered token origin target amount ∷ s.events;
        },
        ground (arith, entries-bounded s token origin target ne books),
        ground (arith, get-put_self (token, origin) left credited keyed),
        ground (
          arith,
          get-put_ne (token, origin) (token, target) left credited
              (pair-ne token target origin (λ e. ne (sym e))),
          get-insert_self (token, target) grown s.balances,
        ),
        ground (arith, get-put_self (token, origin) left credited keyed),
        ground (
          arith,
          get-put_ne (token, origin) (token, target) left credited
              (pair-ne token target origin (λ e. ne (sym e))),
          get-insert_self (token, target) grown s.balances,
        ),
      )

  -- With the books in order, what was reserved of a token of this pallet can be unreserved, and that
  -- leaves every account as it was.
  pub unreserve-reserve :
      (token who value : ℕ) (s s₁ : State c.Native)
      → token ≢ c.native_token_id
      → IsBacked s
      → reserve c token who value s ≡ ok s₁
      → (s₂ : State c.Native) × (unreserve c token who value s₁ ≡ ok s₂)
        × (s₂.balances ≡ s.balances)
  unfolding reserve unreserve
  unreserve-reserve token who value s s₁ foreign books h = elim (Bool-cases (value == 0)) [
    | inl none_asked ↦ (s₁, ground arith, ground arith)
    | inr some_asked ↦
        let (found, covered, e) = reserve-eq-ok c token who value s s₁ foreign (ground arith) h in
        let a = entry token who s in
        let moved : Account = record { free = a.free - value; reserved = a.reserved + value } in
        let bound = weight-le-sum_by (held token) (token, who) s.balances in
        let small : a.free < u128_mod =
          ground (arith, bound, books.backed token, books.bounded token) in
        let now = get-insert_self (token, who) moved s.balances in
        let b₁ : s₁.balances ≡ insert (token, who) moved s.balances = rw e refl in
        (
          record s₁ {
            balances = insert (token, who) a s₁.balances;
            events = Event.token_unreserved token who value ∷ s₁.events;
          },
          ground (arith, now),
          rw b₁ (insert-insert_self (token, who) a moved s.balances found),
        )
  ]

  -- With the books in order, a token of the kind FND10 can never be minted: `do_mint` takes the
  -- recorded total for the amount, and that is zero.
  pub do_mint-fnd10 :
      (token who amount n : ℕ) (name : Bytes) (s : State c.Native)
      → IsBacked s
      → get token s.tokens ≡ some (fnd10 name n)
      → amount ≢ 0
      → do_mint c token who amount s ≡ err (fail TokenError.amount_zero)
  unfolding do_mint grow_total
  do_mint-fnd10 token who amount n name s books found nz =
      let empty : n ≡ 0 = rw found at (books.barren token) in ground arith

  -- Where an account of a token of this pallet is its own beneficiary and is to receive in its
  -- reserved balance, the amount does not stay reserved: it is taken from the free balance.
  pub repatriate_reserved_self :
      (token who value : ℕ) (s s' : State c.Native)
      → token ≢ c.native_token_id
      → repatriate_reserved c token who who value BalanceStatus.reserved s ≡ ok s'
      → (reserved_balance c token who s' ≡ reserved_balance c token who s + value)
        × (free_balance c token who s' + value ≡ free_balance c token who s)
  unfolding repatriate_reserved reserve free_balance reserved_balance
  repatriate_reserved_self token who value s s' foreign h =
      let a = entry token who s in
      let moved : Account = record { free = a.free - value; reserved = a.reserved + value } in
      ground (arith, get-insert_self (token, who) moved s.balances)
