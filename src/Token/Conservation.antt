-- ===== src/Token/Conservation.antt =====
-- Operations on accounts move no token in or out of the pallet.
use fusotao.Prelude.{
  ℕ, ◌+◌, ◌-◌, ◌≤◌, ◌<◌, ◌≡◌, ◌≢◌, ap, refl, Bool-cases, inl, inr, Option, some, arith, ◌==◌,
  u128_mod, nat_eq, pair_eq,
}
use fusotao.Support.Storage.{get, put, IsMap, weight, sum_by-put, sum_by-put-put, put-IsMap}
use fusotao.Support.Dispatch.{ok}
use fusotao.Support.Asset.{Account, BalanceStatus}
use fusotao.Token.Types.{State, Event, Config, or_default, unless_dead, deposit_event}
use fusotao.Token.Accounts.{
  transfer_between, transfer_token, reserve, unreserve, repatriate_between, repatriate_reserved,
}
use fusotao.Token.Invariant.{held, holdings, IsBacked}

-- `s'` has the holdings, the tokens and the ids of `s`.
pub record Conserves {Native : Type 0} (s s' : State Native) : Type 0 where
  pub same_holdings : (t : ℕ) → holdings t s' ≡ holdings t s
  pub same_tokens : s'.tokens ≡ s.tokens
  pub same_next : s'.next_token_id ≡ s.next_token_id
  pub keeps_keys : IsMap s.balances → IsMap s'.balances

pub Conserves-IsBacked :
    {Native : Type 0} (s s' : State Native) → Conserves s s' → IsBacked s → IsBacked s'
Conserves-IsBacked s s' k b = record {
  backed = λ t. rw (k.same_holdings t, k.same_tokens) (b.backed t);
  bounded = λ t. rw k.same_tokens (b.bounded t);
  barren = λ t. rw k.same_tokens (b.barren t);
  fresh = λ t h. rw k.same_tokens (b.fresh t (rw k.same_next at h));
  keyed = k.keeps_keys b.keyed;
}

pub pair-ne : (t a b : ℕ) → a ≢ b → ◌≢◌ {A = ℕ × ℕ} (t, b) (t, a)
pair-ne t a b h p = ground arith

-- Only the accounts, the entries and the ids count.
pub aside-Conserves :
    {Native : Type 0} (s s' : State Native)
    → s'.balances ≡ s.balances
    → s'.tokens ≡ s.tokens
    → s'.next_token_id ≡ s.next_token_id
    → Conserves s s'
aside-Conserves s s' b t n = record {
  same_holdings = λ k. rw b refl;
  same_tokens = t;
  same_next = n;
  keeps_keys = λ k. rw b k;
}

pub native-Conserves :
    {Native : Type 0} (s : State Native) (n : Native) → Conserves s (record s { native = n })
native-Conserves s n = aside-Conserves s _ refl refl refl

pub event-Conserves :
    {Native : Type 0} (s : State Native) (e : Event) → Conserves s (deposit_event e s)
event-Conserves s e = aside-Conserves s _ refl refl refl

self-Conserves : {Native : Type 0} (s : State Native) → Conserves s s
self-Conserves s = native-Conserves s s.native

-- One entry rewritten with the same sum of its two balances.
write-Conserves :
    {Native : Type 0} (s : State Native) (k : ℕ × ℕ) (o : Option Account) (e : Event)
    → ((t : ℕ) → weight (held t) k o ≡ weight (held t) k (get k s.balances))
    → Conserves s (deposit_event e (record s { balances = put k o s.balances }))
write-Conserves s k o e h = record {
  same_holdings = λ t. omega (arith, sum_by-put (held t) k o s.balances, h t);
  same_tokens = refl;
  same_next = refl;
  keeps_keys = put-IsMap k o s.balances;
}

-- Two entries rewritten with the same sum of their four balances.
writes-Conserves :
    {Native : Type 0} (s : State Native) (k j : ℕ × ℕ) (o p : Option Account) (e : Event)
    → j ≢ k
    → ((t : ℕ)
        → weight (held t) k o + weight (held t) j p
          ≡ weight (held t) k (get k s.balances) + weight (held t) j (get j s.balances))
    → Conserves s (deposit_event e (record s { balances = put k o (put j p s.balances) }))
writes-Conserves s k j o p e ne h = record {
  same_holdings = λ t. omega (arith, sum_by-put-put (held t) k j o p s.balances ne, h t);
  same_tokens = refl;
  same_next = refl;
  keeps_keys = λ m. put-IsMap k o _ (put-IsMap j p s.balances m);
}

-- The entry that a successful debit finds.
abbrev pub entry : {Native : Type 0} → ℕ → ℕ → State Native → Account
entry token who s = or_default (get (token, who) s.balances)

module _ (c : Config) where
  -- What `transfer_between` has done where it succeeds.
  pub transfer_between-eq-ok :
      (origin token amount target : ℕ) (s : State c.Native) {r : ℕ × State c.Native}
      → transfer_between c origin token amount target s ≡ ok r
      → let from = entry token origin s in
        let to = entry token target s in
        (get (token, origin) s.balances ≡ some from)
        × (amount ≤ from.free)
        × (to.free + amount < u128_mod)
        × (r ≡ (
          amount,
          deposit_event (Event.token_transfered token origin target amount) (record s {
            balances =
                put
                  (token, origin)
                  (unless_dead (record from { free = from.free - amount }))
                  (put (token, target) (some (record to { free = to.free + amount })) s.balances);
          }),
        ))
  unfolding transfer_between
  transfer_between-eq-ok origin token amount target s h = ground arith

  pub transfer_between-Conserves :
      (origin token amount target n : ℕ) (s s' : State c.Native)
      → origin ≢ target
      → transfer_between c origin token amount target s ≡ ok (n, s')
      → Conserves s s'
  transfer_between-Conserves origin token amount target n s s' ne h =
      let (found, covered, fits, e) = transfer_between-eq-ok origin token amount target s h in
      let from = entry token origin s in
      let to = entry token target s in
      let left = unless_dead (record from { free = from.free - amount }) in
      let grown = some (record to { free = to.free + amount }) in
      rw (ap (λ (q : ℕ × State c.Native). q.1) e) (
        writes-Conserves s (token, origin) (token, target) left grown _
          (pair-ne token origin target ne) (λ t. ground arith))

  pub transfer_token-Conserves :
      (origin token amount target n : ℕ) (s s' : State c.Native)
      → transfer_token c origin token amount target s ≡ ok (n, s')
      → Conserves s s'
  unfolding transfer_token
  transfer_token-Conserves origin token amount target n s s' h = ground (
    arith,
    transfer_between-Conserves origin token amount target n s s',
    self-Conserves s,
    native-Conserves s s'.native,
  )

  -- What `reserve` has done to a token of this pallet where it succeeds.
  pub reserve-eq-ok :
      (token who value : ℕ) (s s' : State c.Native)
      → token ≢ c.native_token_id
      → value ≢ 0
      → reserve c token who value s ≡ ok s'
      → let a = entry token who s in
        (get (token, who) s.balances ≡ some a)
        × (value ≤ a.free)
        × (s'
            ≡ deposit_event (Event.token_reserved token who value) (record s {
              balances =
                  put
                    (token, who)
                    (some (record { free = a.free - value; reserved = a.reserved + value }))
                    s.balances;
            }))
  unfolding reserve
  reserve-eq-ok token who value s s' foreign nonzero h = ground arith

  pub reserve-Conserves :
      (token who value : ℕ) (s s' : State c.Native)
      → reserve c token who value s ≡ ok s'
      → Conserves s s'
  unfolding reserve
  reserve-Conserves token who value s s' h = elim (Bool-cases (value == 0)) [
    | inl zero ↦ ground (arith, self-Conserves s)
    | inr nonzero ↦ elim (Bool-cases (token == c.native_token_id)) [
      | inl native ↦ ground (arith, native-Conserves s s'.native)
      | inr foreign ↦
          let a = entry token who s in
          let moved : Account = record { free = a.free - value; reserved = a.reserved + value } in
          let (found, covered, e) =
            reserve-eq-ok token who value s s' (ground arith) (ground arith) h in
          rw e (write-Conserves s (token, who) (some moved) _ (λ t. ground arith))
    ]
  ]

  -- What `unreserve` has done to a token of this pallet where it succeeds.
  pub unreserve-eq-ok :
      (token who value : ℕ) (s s' : State c.Native)
      → token ≢ c.native_token_id
      → value ≢ 0
      → unreserve c token who value s ≡ ok s'
      → let a = entry token who s in
        (get (token, who) s.balances ≡ some a)
        × (value ≤ a.reserved)
        × (s'
            ≡ deposit_event (Event.token_unreserved token who value) (record s {
              balances =
                  put
                    (token, who)
                    (some (record { free = a.free + value; reserved = a.reserved - value }))
                    s.balances;
            }))
  unfolding unreserve
  unreserve-eq-ok token who value s s' foreign nonzero h = ground arith

  pub unreserve-Conserves :
      (token who value : ℕ) (s s' : State c.Native)
      → unreserve c token who value s ≡ ok s'
      → Conserves s s'
  unfolding unreserve
  unreserve-Conserves token who value s s' h = elim (Bool-cases (value == 0)) [
    | inl zero ↦ ground (arith, self-Conserves s)
    | inr nonzero ↦ elim (Bool-cases (token == c.native_token_id)) [
      | inl native ↦ ground (arith, native-Conserves s s'.native)
      | inr foreign ↦
          let a = entry token who s in
          let moved : Account = record { free = a.free + value; reserved = a.reserved - value } in
          let (found, covered, e) =
            unreserve-eq-ok token who value s s' (ground arith) (ground arith) h in
          rw e (write-Conserves s (token, who) (some moved) _ (λ t. ground arith))
    ]
  ]

  -- The beneficiary's account after `receive`.
  abbrev pub received : BalanceStatus → ℕ → Account → Account
  received BalanceStatus.free value a = record a { free = a.free + value }
  received BalanceStatus.reserved value a = record a { reserved = a.reserved + value }

  pub repatriate_between-eq-ok :
      (token slashed beneficiary value : ℕ) (status : BalanceStatus) (s s' : State c.Native)
      → repatriate_between c token slashed beneficiary value status s ≡ ok s'
      → let from = entry token slashed s in
        let to = entry token beneficiary s in
        (get (token, slashed) s.balances ≡ some from)
        × (value ≤ from.reserved)
        × (s'
            ≡ deposit_event (Event.token_repatriated token slashed beneficiary value) (record s {
              balances =
                  put
                    (token, slashed)
                    (unless_dead (record from { reserved = from.reserved - value }))
                    (put (token, beneficiary) (some (received status value to)) s.balances);
            }))
  unfolding repatriate_between
  repatriate_between-eq-ok token slashed beneficiary value BalanceStatus.free s s' h = ground arith
  repatriate_between-eq-ok token slashed beneficiary value BalanceStatus.reserved s s' h =
      ground arith

  repatriate_between-Conserves :
      (token slashed beneficiary value : ℕ) (status : BalanceStatus) (s s' : State c.Native)
      → slashed ≢ beneficiary
      → repatriate_between c token slashed beneficiary value status s ≡ ok s'
      → Conserves s s'
  repatriate_between-Conserves token slashed beneficiary value status s s' ne h =
      let (found, covered, e) =
        repatriate_between-eq-ok token slashed beneficiary value status s s' h in
      let from = entry token slashed s in
      let to = entry token beneficiary s in
      let left = unless_dead (record from { reserved = from.reserved - value }) in
      rw e (
        writes-Conserves s (token, slashed) (token, beneficiary) left
          (some (received status value to)) _ (pair-ne token slashed beneficiary ne)
          (λ t. ground arith))

  pub repatriate_reserved-Conserves :
      (token slashed beneficiary value : ℕ) (status : BalanceStatus) (s s' : State c.Native)
      → repatriate_reserved c token slashed beneficiary value status s ≡ ok s'
      → Conserves s s'
  unfolding repatriate_reserved
  repatriate_reserved-Conserves token slashed beneficiary value BalanceStatus.free s s' h = ground (
    arith,
    native-Conserves s s'.native,
    unreserve-Conserves token slashed value s s',
    repatriate_between-Conserves token slashed beneficiary value BalanceStatus.free s s',
  )
  repatriate_reserved-Conserves token slashed beneficiary value BalanceStatus.reserved s s' h =
      ground (
        arith,
        native-Conserves s s'.native,
        reserve-Conserves token slashed value s s',
        repatriate_between-Conserves token slashed beneficiary value BalanceStatus.reserved s s',
      )
