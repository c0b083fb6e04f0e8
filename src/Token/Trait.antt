-- ===== src/Token/Trait.antt =====
-- pallets/token as an implementation of the traits `Token` and `ReservableToken`. Where the token is
-- the chain's own the pallet hands over to pallet_balances, so its laws ask the documented behaviour
-- of that pallet as a hypothesis.
use fusotao.Prelude.{
  ℕ, ◌+◌, ◌-◌, ◌≤◌, ◌≡◌, ◌≢◌, ◌&&◌, ◌==◌, if◌then◌else◌, arith, Bool-cases, inl, inr, ◌⊎◌, nat_eq,
  pair_eq,
}
use fusotao.Support.Storage.{put, IsMap, put-IsMap, get-put, get-insert}
use fusotao.Support.Dispatch.{Result, ok, Result-cases}
use fusotao.Support.Asset.{Account, Asset, ReserveLaws, on_account, only_at}
use fusotao.Token.Types.{unless_dead, State, Config}
use fusotao.Token.Accounts.{
  free_balance, reserved_balance, can_reserve, transfer_token, try_mutate_account, reserve,
  unreserve,
}
use fusotao.Token.Supply.{try_mutate_issuance}
use fusotao.Token.Views.{exists, is_stable_token}
use fusotao.Token.Conservation.{
  entry, reserve-eq-ok, unreserve-eq-ok, reserve-Conserves, unreserve-Conserves,
}

unfoldable pub token_asset : Config → Asset
token_asset c = record {
  Store = State c.Native;
  native_token_id = c.native_token_id;
  exists = exists c;
  is_stable = is_stable_token c;
  free_balance = free_balance c;
  reserved_balance = reserved_balance c;
  can_reserve = can_reserve c;
  transfer_token = transfer_token c;
  try_mutate_account = try_mutate_account c;
  try_mutate_issuance = try_mutate_issuance c;
  reserve = reserve c;
  unreserve = unreserve c;
}

-- What pallet_balances documents of reserved balances: `unreserve` frees the amount where that much
-- is reserved.
pub record NativeLaws (c : Config) : Type 0 where
  pub native-reserve :
      (w v w' : ℕ) (n n' : c.Native)
      → c.reserve w v n ≡ ok n'
      → c.reserved_balance w' n' ≡ c.reserved_balance w' n + (if w == w' then v else 0)
  pub native-unreserve :
      (w v w' : ℕ) (n : c.Native)
      → v ≤ c.reserved_balance w n
      → c.reserved_balance w' (c.unreserve w v n) + (if w == w' then v else 0)
        ≡ c.reserved_balance w' n
  pub native-set_account :
      (w w' : ℕ) (b : Account) (n n' : c.Native)
      → c.set_account w b n ≡ ok n'
      → c.reserved_balance w' n' ≡ (if w == w' then b.reserved else c.reserved_balance w' n)

module _ (c : Config) where
  pub reserve-reserved :
      (t w v t' w' : ℕ) (s s' : State c.Native)
      → NativeLaws c
      → reserve c t w v s ≡ ok s'
      → reserved_balance c t' w' s' ≡ reserved_balance c t' w' s + only_at t w t' w' v
  unfolding reserve reserved_balance
  reserve-reserved t w v t' w' s s' laws h = elim (Bool-cases (v == 0)) [
    | inl zero ↦ ground arith
    | inr nonzero ↦ elim (Bool-cases (t == c.native_token_id)) [
      | inl native ↦ ground (arith, laws.native-reserve w v w' s.native s'.native)
      | inr foreign ↦
          let (found, covered, e) = reserve-eq-ok c t w v s s' (ground arith) (ground arith) h in
          let a = entry t w s in
          let moved : Account = record { free = a.free - v; reserved = a.reserved + v } in
          ground (arith, e, get-insert (t, w) (t', w') moved s.balances)
    ]
  ]

  pub unreserve-reserved :
      (t w v t' w' : ℕ) (s s' : State c.Native)
      → NativeLaws c
      → unreserve c t w v s ≡ ok s'
      → reserved_balance c t' w' s' + only_at t w t' w' v ≡ reserved_balance c t' w' s
  unfolding unreserve reserved_balance
  unreserve-reserved t w v t' w' s s' laws h = elim (Bool-cases (v == 0)) [
    | inl zero ↦ ground arith
    | inr nonzero ↦ elim (Bool-cases (t == c.native_token_id)) [
      | inl native ↦ ground (arith, laws.native-unreserve w v w' s.native)
      | inr foreign ↦
          let (found, covered, e) = unreserve-eq-ok c t w v s s' (ground arith) (ground arith) h in
          let a = entry t w s in
          let moved : Account = record { free = a.free + v; reserved = a.reserved - v } in
          ground (arith, e, get-insert (t, w) (t', w') moved s.balances)
    ]
  ]

  -- What a mutation of an account has done where it succeeds.
  pub mutate-eq-ok :
      (t w : ℕ) (f : Account → Result Account) (s s' : State c.Native)
      → try_mutate_account c t w (on_account f) s ≡ ok s'
      → (b : Account) × (f
            (record { free = free_balance c t w s; reserved = reserved_balance c t w s })
          ≡ ok b)
        × ((t ≡ c.native_token_id)
              × (c.set_account w b s.native ≡ ok s'.native)
              × (s' ≡ record s { native = s'.native })
            ⊎ (t ≢ c.native_token_id)
              × (s' ≡ record s { balances = put (t, w) (unless_dead b) s.balances }))
  unfolding try_mutate_account free_balance reserved_balance
  mutate-eq-ok t w f s s' h = elim (Bool-cases (t == c.native_token_id)) [
    | inl native ↦
        let before : Account = record {
          free = c.free_balance w s.native;
          reserved = c.reserved_balance w s.native;
        } in
        elim (Result-cases (f before)) [
          | inl (e, failed) ↦ ground arith
          | inr (b, done) ↦ elim (Result-cases (c.set_account w b s.native)) [
            | inl (e, failed) ↦ ground arith
            | inr (n, set) ↦ (b, ground arith, inl (ground arith, ground arith, ground arith))
          ]
        ]
    | inr foreign ↦ elim (Result-cases (f (entry t w s))) [
      | inl (e, failed) ↦ ground arith
      | inr (b, done) ↦ (b, ground arith, inr (ground arith, ground arith))
    ]
  ]

  pub mutate-reserved :
      (t w t' w' : ℕ) (f : Account → Result Account) (b : Account) (s s' : State c.Native)
      → NativeLaws c
      → f (record { free = free_balance c t w s; reserved = reserved_balance c t w s }) ≡ ok b
      → try_mutate_account c t w (on_account f) s ≡ ok s'
      → IsMap s.balances
      → reserved_balance c t' w' s'
        ≡ (if t == t' && w == w' then b.reserved else reserved_balance c t' w' s)
  unfolding reserved_balance
  mutate-reserved t w t' w' f b s s' laws done h keyed =
      let (b', done', how) = mutate-eq-ok t w f s s' h in
      let same : b' ≡ b = ground arith in
      elim how [
        | inl (native, set, kept) ↦
            ground (arith, laws.native-set_account w w' b' s.native s'.native)
        | inr (foreign, written) ↦
            ground (arith, written, get-put (t, w) (t', w') (unless_dead b') s.balances keyed)
      ]

  pub mutate-IsMap :
      (t w : ℕ) (f : Account → Result Account) (s s' : State c.Native)
      → try_mutate_account c t w (on_account f) s ≡ ok s'
      → IsMap s.balances
      → IsMap s'.balances
  mutate-IsMap t w f s s' h keyed =
      let (b, done, how) = mutate-eq-ok t w f s s' h in
      elim how [
        | inl (native, set, kept) ↦ rw kept keyed
        | inr (foreign, written) ↦ rw written (put-IsMap (t, w) (unless_dead b) s.balances keyed)
      ]

  -- The laws of the trait hold of pallets/token, given those of pallet_balances.
  unfoldable pub token_laws : NativeLaws c → ReserveLaws (token_asset c)
  unfolding token_asset
  token_laws laws = record {
    IsValid = λ s. IsMap s.balances;
    reserve-IsValid = λ t w v s s' h. (reserve-Conserves c t w v s s' h).keeps_keys;
    unreserve-IsValid = λ t w v s s' h. (unreserve-Conserves c t w v s s' h).keeps_keys;
    mutate-IsValid = mutate-IsMap;
    reserved-reserve = λ t w v t' w' s s' h k. reserve-reserved t w v t' w' s s' laws h;
    reserved-unreserve = λ t w v t' w' s s' h k. unreserve-reserved t w v t' w' s s' laws h;
    reserved-mutate =
        λ t w t' w' f b s s' done h k. mutate-reserved t w t' w' f b s s' laws done h k;
    mutate-eq-ok = λ t w f s s' h. let (b, done, how) = mutate-eq-ok t w f s s' h in (b, done);
  }
