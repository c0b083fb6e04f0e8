-- ===== src/Bridge/Counted.antt =====
-- `RelayerCount` of pallets/chainbridge stays the number of relayers.
use fusotao.Prelude.{ℕ, ◌≡◌, refl, true, false, arith}
use fusotao.Support.Dispatch.{ok, root, unsigned, signed}
use fusotao.Bridge.Types.{State, Config, Event, deposit_event}
use fusotao.Bridge.Admin.{
  set_relayer_threshold, whitelist, set_threshold, remove_resource, whitelist_chain, add_relayer,
  remove_relayer,
}
use fusotao.Bridge.Proposals.{eval_vote_state}
use fusotao.Bridge.Transfers.{transfer_fungible, transfer_nonfungible, transfer_generic}
use fusotao.Bridge.History.{
  Call, apply, sets_threshold, whitelists, adds_relayer, removes_relayer, sets_resource,
  removes_resource, acknowledges, rejects, evaluates, transfers_fungible, transfers_nonfungible,
  transfers_generic,
}
use fusotao.Bridge.Effects.{IsQuiet}
use fusotao.Bridge.Relayers.{
  Kept, IsCounted, register_relayer-IsCounted, unregister_relayer-IsCounted,
  try_resolve_proposal-votes, vote-votes, transfer_with-Kept, set_resource-Kept,
  acknowledge_proposal-vote, reject_proposal-vote,
}

Kept-IsCounted : {Rest : Type 0} (s s' : State Rest) → Kept s s' → IsCounted s → IsCounted s'
Kept-IsCounted s s' (same, count, threshold) b = rw (same, count) b

module _ (c : Config) where
  open c use {Rest}

  -- A call that succeeds leaves `RelayerCount` the number of relayers, modulo 2^32, when the
  -- call it may dispatch, that of the proposal it votes on or evaluates, leaves the votes and the
  -- relayers alone.
  pub apply-IsCounted :
      (now : ℕ) (call : Call) (s s' : State Rest)
      → IsQuiet c call
      → apply c now call s ≡ ok s'
      → IsCounted s
      → IsCounted s'
  unfolding apply set_threshold set_relayer_threshold whitelist_chain whitelist add_relayer
      remove_relayer remove_resource transfer_fungible transfer_nonfungible transfer_generic
      eval_vote_state
  apply-IsCounted now (sets_threshold origin n) s s' quiet h b = ground arith
  apply-IsCounted now (whitelists origin id) s s' quiet h b = ground arith
  apply-IsCounted now (adds_relayer origin v) s s' quiet h b =
      ground (arith, register_relayer-IsCounted c v s s')
  apply-IsCounted now (removes_relayer origin v) s s' quiet h b =
      ground (arith, unregister_relayer-IsCounted c v s s')
  apply-IsCounted now (sets_resource origin id method) s s' quiet h b =
      Kept-IsCounted s s' (set_resource-Kept c origin id method s s' h).1 b
  apply-IsCounted now (removes_resource origin id) s s' quiet h b = ground arith
  apply-IsCounted now (acknowledges origin nonce src_id r_id evm_hash call) s s' quiet h b =
      let (who, e, relayer, listed, voted) =
        acknowledge_proposal-vote c now origin nonce src_id r_id evm_hash call s s' h in
      let (unfinished, due, new, w, kept) =
        vote-votes c now who nonce src_id call true
          (deposit_event (Event.proposal_vote src_id evm_hash nonce) s) s' (quiet call refl)
          voted in
      Kept-IsCounted s s' kept b
  apply-IsCounted now (rejects origin nonce src_id r_id call) s s' quiet h b =
      let (who, e, relayer, listed, voted) =
        reject_proposal-vote c now origin nonce src_id r_id call s s' h in
      let (unfinished, due, new, w, kept) =
        vote-votes c now who nonce src_id call false s s' (quiet call refl) voted in
      Kept-IsCounted s s' kept b
  apply-IsCounted now (evaluates (signed who) nonce src_id call) s s' quiet h b =
      let (v, found, unfinished, due, w, kept) =
        try_resolve_proposal-votes c now nonce src_id call s s' (quiet call refl) h in
      Kept-IsCounted s s' kept b
  apply-IsCounted now (evaluates root nonce src_id call) s s' quiet h b = cc
  apply-IsCounted now (evaluates unsigned nonce src_id call) s s' quiet h b = cc
  apply-IsCounted now (transfers_fungible dest_id r_id to amount) s s' quiet h b =
      Kept-IsCounted s s'
        (transfer_with-Kept c dest_id (λ x. Event.fungible_transfer dest_id x r_id amount to) s s'
          h).1
        b
  apply-IsCounted now (transfers_nonfungible dest_id r_id token to metadata) s s' quiet h b =
      Kept-IsCounted s s'
        (transfer_with-Kept c dest_id
          (λ x. Event.non_fungible_transfer dest_id x r_id token to metadata) s s' h).1
        b
  apply-IsCounted now (transfers_generic dest_id r_id metadata) s s' quiet h b =
      Kept-IsCounted s s'
        (transfer_with-Kept c dest_id (λ x. Event.generic_transfer dest_id x r_id metadata) s s'
          h).1
        b
