-- ===== src/Market/Status.antt =====
-- When a trading pair of pallets/market may be used, and what its record always says.
use fusotao.Prelude.{
  ℕ, ◌≤◌, ◌≡◌, refl, subst, ◌≢◌, inl, inr, Option, none, some, List, [], ◌∷◌, arith, leb,
  Bool-cases, Option-cases, nat_eq, pair_eq, bytes_eq, saturating_add32,
}
use fusotao.Support.Storage.{StorageMap, get, insert, get-insert, get-insert_self}
use fusotao.Support.Dispatch.{Origin, Result-cases, ok, root, unsigned, signed}
use fusotao.Support.XToken.{Bytes}
use fusotao.Market.Types.{MarketStatus, Market, Pair, State, Config, registered, open_, closed}
use fusotao.Market.Brokers.{register_broker, deregister_broker, broker_set_rpc_endpoint}
use fusotao.Market.Pairs.{
  fresh_market, is_market_open, register_market, open_market, close_market, apply_for_token_listing,
}
use fusotao.Market.History.{
  Call, after, apply, run, registers_broker, deregisters_broker, sets_rpc_endpoint,
  applies_for_listing, opens, closes,
}

-- The scales fit seven digits, and exactly a closed market has a deadline.
pub record IsSound (p : Market) : Type 0 where
  pub base_fits : p.base_scale ≤ 7
  pub quote_fits : p.quote_scale ≤ 7
  pub deadline_of_closed : p.status ≡ closed → p.unavailable_after ≢ none
  pub no_deadline : p.status ≢ closed → p.unavailable_after ≡ none

abbrev pub IsSoundOption : Option Market → Type 0
IsSoundOption none = Unit
IsSoundOption (some p) = IsSound p

insert-IsSound :
    (k j : Pair) (p : Market) (m : StorageMap Pair Market)
    → IsSound p
    → IsSoundOption (get j m)
    → IsSoundOption (get j (insert k p m))
insert-IsSound k j p m new old = elim (Bool-cases (pair_eq.beq k j)) [
  | inl same ↦ rw (get-insert k j p m, same) new
  | inr apart ↦ rw (get-insert k j p m, apart) old
]

module _ (c : Config) where
  open c use {asset}

  -- Once closed at block `now`, a market may be used at exactly the blocks up to the end of the grace
  -- period.
  pub is_market_open-close_market :
      (dominator base quote now at : ℕ) (s s' : State asset.Store)
      → close_market c dominator base quote now s ≡ ok s'
      → is_market_open c dominator base quote at s'
        ≡ leb at (saturating_add32 now c.market_close_grace_period)
  unfolding close_market is_market_open
  is_market_open-close_market dominator base quote now at s s' h =
      elim (Option-cases (get (dominator, (base, quote)) s.markets)) [
        | inl missing ↦ ground arith
        | inr (p, found) ↦ ground (
          arith,
          get-insert_self (dominator, (base, quote))
              (record p {
                status = closed;
                unavailable_after = some (saturating_add32 now c.market_close_grace_period);
              })
              s.markets,
        )
      ]

  register_broker-markets :
      (now : ℕ) (origin : Origin) (broker : ℕ) (url name : Bytes) (s s' : State asset.Store)
      → register_broker c now origin broker url name s ≡ ok s'
      → s'.markets ≡ s.markets
  unfolding register_broker
  register_broker-markets now root broker url name s s' h = cc
  register_broker-markets now unsigned broker url name s s' h = cc
  register_broker-markets now (signed who) broker url name s s' h =
      elim (Result-cases (
        asset.transfer_token who asset.native_token_id c.broker_staking_threshold c.system_account
          s.assets)) [ inl (e, failed) ↦ ground arith | inr (a, moved) ↦ ground arith ]

  deregister_broker-markets :
      (origin : Origin) (broker : ℕ) (s s' : State asset.Store)
      → deregister_broker c origin broker s ≡ ok s'
      → s'.markets ≡ s.markets
  unfolding deregister_broker
  deregister_broker-markets root broker s s' h = cc
  deregister_broker-markets unsigned broker s s' h = cc
  deregister_broker-markets (signed who) broker s s' h =
      elim (Option-cases (get broker s.brokers)) [
        | inl missing ↦ ground arith
        | inr (b, found) ↦
            elim (Result-cases (
              asset.transfer_token c.system_account asset.native_token_id b.staked b.beneficiary
                s.assets)) [ inl (e, failed) ↦ ground arith | inr (a, moved) ↦ ground arith ]
      ]

  broker_set_rpc_endpoint-markets :
      (origin : Origin) (broker : ℕ) (url : Bytes) (s s' : State asset.Store)
      → broker_set_rpc_endpoint c origin broker url s ≡ ok s'
      → s'.markets ≡ s.markets
  unfolding broker_set_rpc_endpoint
  broker_set_rpc_endpoint-markets origin broker url s s' h = ground arith

  fresh_market-IsSound :
      (status : MarketStatus) (base_scale quote_scale min_base : ℕ)
      → base_scale ≤ 7
      → quote_scale ≤ 7
      → status ≢ closed
      → IsSound (fresh_market status base_scale quote_scale min_base)
  fresh_market-IsSound status base_scale quote_scale min_base b q n = record {
    base_fits = b;
    quote_fits = q;
    deadline_of_closed = λ e. absurd (n e);
    no_deadline = λ e. refl;
  }

  register_market-IsSound :
      (dominator base quote base_scale quote_scale min_base : ℕ) (s s' : State asset.Store)
      (key : Pair)
      → register_market c dominator base quote base_scale quote_scale min_base s ≡ ok s'
      → IsSoundOption (get key s.markets)
      → IsSoundOption (get key s'.markets)
  unfolding register_market
  register_market-IsSound dominator base quote base_scale quote_scale min_base s s' key h b =
      let p = fresh_market registered base_scale quote_scale min_base in
      let e : s'.markets ≡ insert (dominator, (base, quote)) p s.markets = ground arith in
      rw e (
        insert-IsSound (dominator, (base, quote)) key p s.markets
          (fresh_market-IsSound registered base_scale quote_scale min_base (ground arith)
            (ground arith) (λ q. cc))
          b)

  open_market-IsSound :
      (dominator base quote base_scale quote_scale min_base : ℕ) (s s' : State asset.Store)
      (key : Pair)
      → open_market c dominator base quote base_scale quote_scale min_base s ≡ ok s'
      → IsSoundOption (get key s.markets)
      → IsSoundOption (get key s'.markets)
  unfolding open_market
  open_market-IsSound dominator base quote base_scale quote_scale min_base s s' key h b =
      let p = fresh_market open_ base_scale quote_scale min_base in
      let e : s'.markets ≡ insert (dominator, (base, quote)) p s.markets = ground arith in
      rw e (
        insert-IsSound (dominator, (base, quote)) key p s.markets
          (fresh_market-IsSound open_ base_scale quote_scale min_base (ground arith) (ground arith)
            (λ q. cc))
          b)

  close_market-IsSound :
      (dominator base quote now : ℕ) (s s' : State asset.Store) (key : Pair)
      → close_market c dominator base quote now s ≡ ok s'
      → ((k : Pair) → IsSoundOption (get k s.markets))
      → IsSoundOption (get key s'.markets)
  unfolding close_market
  close_market-IsSound dominator base quote now s s' key h b =
      elim (Option-cases (get (dominator, (base, quote)) s.markets)) [
        | inl missing ↦ ground arith
        | inr (p, found) ↦
            let q : Market = record p {
              status = closed;
              unavailable_after = some (saturating_add32 now c.market_close_grace_period);
            } in
            let e : s'.markets ≡ insert (dominator, (base, quote)) q s.markets = ground arith in
            let old : IsSound p = subst IsSoundOption found (b (dominator, (base, quote))) in
            rw e (
              insert-IsSound (dominator, (base, quote)) key q s.markets
                (record {
                  base_fits = old.base_fits;
                  quote_fits = old.quote_fits;
                  deadline_of_closed = λ r z. cc;
                  no_deadline = λ r. absurd (r refl);
                })
                (b key))
      ]

  apply-IsSound :
      (now : ℕ) (call : Call) (s s' : State asset.Store)
      → apply c now call s ≡ ok s'
      → ((k : Pair) → IsSoundOption (get k s.markets))
      → (key : Pair) → IsSoundOption (get key s'.markets)
  unfolding apply apply_for_token_listing
  apply-IsSound now (registers_broker origin broker url name) s s' h b key =
      rw (register_broker-markets now origin broker url name s s' h) (b key)
  apply-IsSound now (deregisters_broker origin broker) s s' h b key =
      rw (deregister_broker-markets origin broker s s' h) (b key)
  apply-IsSound now (sets_rpc_endpoint origin broker url) s s' h b key =
      rw (broker_set_rpc_endpoint-markets origin broker url s s' h) (b key)
  apply-IsSound now
        (applies_for_listing origin dominator base quote base_scale quote_scale min_base) s s' h b
        key =
      register_market-IsSound dominator base quote base_scale quote_scale min_base s s' key
        (ground arith) (b key)
  apply-IsSound now (opens dominator base quote base_scale quote_scale min_base) s s' h b key =
      open_market-IsSound dominator base quote base_scale quote_scale min_base s s' key h (b key)
  apply-IsSound now (closes dominator base quote) s s' h b key =
      close_market-IsSound dominator base quote now s s' key h b

  after-IsSound :
      (now : ℕ) (call : Call) (s : State asset.Store)
      → ((k : Pair) → IsSoundOption (get k s.markets))
      → (key : Pair) → IsSoundOption (get key (after s (apply c now call s)).markets)
  after-IsSound now call s b key = elim (Result-cases (apply c now call s)) [
    | inl (e, failed) ↦ rw failed (b key)
    | inr (s', done) ↦ rw done (apply-IsSound now call s s' done b key)
  ]

  -- Over any history of calls, failed ones included, every market keeps scales of at most seven digits
  -- and has a deadline exactly when it is closed, from a state where all do.
  pub run-IsSound :
      (calls : List (ℕ × Call)) (s : State asset.Store)
      → ((k : Pair) → IsSoundOption (get k s.markets))
      → (key : Pair) → IsSoundOption (get key (run c calls s).markets)
  unfolding run
  run-IsSound [] s b key = b key
  run-IsSound ((now, call) ∷ calls) s b key =
      run-IsSound calls (after s (apply c now call s)) (after-IsSound now call s b) key
