-- ===== src/Market/History.antt =====
-- Histories of calls on pallets/market, with the block each runs in. A failed call is undone.
use fusotao.Prelude.{ℕ, List, [], ◌∷◌}
use fusotao.Support.Dispatch.{Result, Origin, ok, err}
use fusotao.Support.XToken.{Bytes}
use fusotao.Market.Types.{State, Config}
use fusotao.Market.Brokers.{register_broker, deregister_broker, broker_set_rpc_endpoint}
use fusotao.Market.Pairs.{open_market, close_market, apply_for_token_listing}

-- The dispatchables, and what the verifier calls.
pub data Call : Type 0 where
  registers_broker : Origin → ℕ → Bytes → Bytes → Call
  deregisters_broker : Origin → ℕ → Call
  sets_rpc_endpoint : Origin → ℕ → Bytes → Call
  applies_for_listing : Origin → ℕ → ℕ → ℕ → ℕ → ℕ → ℕ → Call
  opens : ℕ → ℕ → ℕ → ℕ → ℕ → ℕ → Call
  closes : ℕ → ℕ → ℕ → Call

abbrev pub after : {S : Type 0} → S → Result S → S
after s (ok s') = s'
after s (err e) = s

module _ (c : Config) where
  open c use {asset}

  unfoldable pub apply : ℕ → Call → State asset.Store → Result (State asset.Store)
  apply now (registers_broker origin broker url name) s =
      register_broker c now origin broker url name s
  apply now (deregisters_broker origin broker) s = deregister_broker c origin broker s
  apply now (sets_rpc_endpoint origin broker url) s = broker_set_rpc_endpoint c origin broker url s
  apply now (applies_for_listing origin dominator base quote base_scale quote_scale min_base) s =
      apply_for_token_listing c origin dominator base quote base_scale quote_scale min_base s
  apply now (opens dominator base quote base_scale quote_scale min_base) s =
      open_market c dominator base quote base_scale quote_scale min_base s
  apply now (closes dominator base quote) s = close_market c dominator base quote now s

  unfoldable pub run : List (ℕ × Call) → State asset.Store → State asset.Store
  unfolding apply
  run [] s = s
  run ((now, call) ∷ calls) s = run calls (after s (apply now call s))
