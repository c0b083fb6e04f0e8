-- ===== src/Bridge/Effects.antt =====
-- What a call on pallets/chainbridge that succeeds does to the votes.
use fusotao.Prelude.{
  ℕ, ◌≡◌, refl, Bool, true, false, Option, none, some, arith, nat_eq, pair_eq, bytes_eq,
}
use fusotao.Support.Storage.{get, insert}
use fusotao.Support.Dispatch.{ok, root, unsigned, signed}
use fusotao.Bridge.Types.{ProposalVotes, ProposalKey, State, Config, Event}
use fusotao.Bridge.Admin.{
  is_relayer, set_threshold, set_relayer_threshold, remove_resource, whitelist_chain, whitelist,
  add_relayer, register_relayer, remove_relayer, unregister_relayer,
}
use fusotao.Bridge.Proposals.{
  is_complete, is_expired, has_voted, with_vote, votes_or_new, try_to_complete, eval_vote_state,
}
use fusotao.Bridge.Transfers.{transfer_fungible, transfer_nonfungible, transfer_generic}
use fusotao.Bridge.History.{
  Call, apply, sets_threshold, whitelists, adds_relayer, removes_relayer, sets_resource,
  removes_resource, acknowledges, rejects, evaluates, transfers_fungible, transfers_nonfungible,
  transfers_generic,
}
use fusotao.Bridge.Relayers.{
  LeavesVotes, Kept, try_resolve_proposal-votes, vote-votes, transfer_with-Kept, set_resource-Kept,
  acknowledge_proposal-vote, reject_proposal-vote,
}

-- The relayer whose vote a call is, if it is one.
abbrev pub voter : Call → Option ℕ
voter (acknowledges (signed who) nonce src_id r_id evm_hash call) = some who
voter (rejects (signed who) nonce src_id r_id call) = some who
voter _ = none

-- The call that an application of `Call` may dispatch, if it may dispatch one.
abbrev pub proposed : Call → Option ℕ
proposed (acknowledges origin nonce src_id r_id evm_hash call) = some call
proposed (rejects origin nonce src_id r_id call) = some call
proposed (evaluates origin nonce src_id call) = some call
proposed _ = none

-- What `Call` may dispatch leaves the relayers and the votes alone.
abbrev pub IsQuiet : Config → Call → Type 0
IsQuiet c call = (p : ℕ) → proposed call ≡ some p → LeavesVotes c p

-- Nothing, a relayer's vote, or an evaluation.
pub data Effect (c : Config) (now : ℕ) (call : Call) (s s' : State c.Rest) : Type 0 where
  idle : s'.votes ≡ s.votes → Effect c now call s s'
  votes :
      (who : ℕ) (key : ProposalKey) (b : Bool) (v : ProposalVotes)
      → voter call ≡ some who
      → is_relayer c who s ≡ true
      → v ≡ votes_or_new c now (get key s.votes)
      → is_complete v ≡ false
      → is_expired now v ≡ false
      → has_voted who v ≡ false
      → s'.votes
        ≡ insert key
            (try_to_complete s.relayer_threshold s.relayer_count (with_vote who b v)).1
            (insert key (with_vote who b v) s.votes)
      → Kept s s'
      → Effect c now call s s'
  evaluation :
      (key : ProposalKey) (v : ProposalVotes)
      → get key s.votes ≡ some v
      → is_complete v ≡ false
      → is_expired now v ≡ false
      → s'.votes ≡ insert key (try_to_complete s.relayer_threshold s.relayer_count v).1 s.votes
      → Kept s s'
      → Effect c now call s s'

module _ (c : Config) where
  open c use {Rest}

  pub apply-Effect :
      (now : ℕ) (call : Call) (s s' : State Rest)
      → IsQuiet c call
      → apply c now call s ≡ ok s'
      → Effect c now call s s'
  unfolding apply set_threshold set_relayer_threshold whitelist_chain whitelist add_relayer
      remove_relayer remove_resource register_relayer unregister_relayer transfer_fungible
      transfer_nonfungible transfer_generic eval_vote_state
  apply-Effect now (sets_threshold origin n) s s' quiet h = idle (ground arith)
  apply-Effect now (whitelists origin id) s s' quiet h = idle (ground arith)
  apply-Effect now (adds_relayer origin v) s s' quiet h = idle (ground arith)
  apply-Effect now (removes_relayer origin v) s s' quiet h = idle (ground arith)
  apply-Effect now (sets_resource origin id method) s s' quiet h =
      idle (set_resource-Kept c origin id method s s' h).0
  apply-Effect now (removes_resource origin id) s s' quiet h = idle (ground arith)
  apply-Effect now (acknowledges origin nonce src_id r_id evm_hash call) s s' quiet h =
      let (who, e, rel, chain, voted) =
        acknowledge_proposal-vote c now origin nonce src_id r_id evm_hash call s s' h in
      let (open_, due, new, w, k) =
        vote-votes c now who nonce src_id call true _ s' (quiet call refl) voted in
      votes who (src_id, (nonce, call)) true _ (rw e refl) rel refl open_ due new w k
  apply-Effect now (rejects origin nonce src_id r_id call) s s' quiet h =
      let (who, e, rel, chain, voted) =
        reject_proposal-vote c now origin nonce src_id r_id call s s' h in
      let (open_, due, new, w, k) =
        vote-votes c now who nonce src_id call false _ s' (quiet call refl) voted in
      votes who (src_id, (nonce, call)) false _ (rw e refl) rel refl open_ due new w k
  apply-Effect now (evaluates (signed who) nonce src_id call) s s' quiet h =
      let (v, found, open_, due, w, k) =
        try_resolve_proposal-votes c now nonce src_id call s s' (quiet call refl) h in
      evaluation (src_id, (nonce, call)) v found open_ due w k
  apply-Effect now (evaluates root nonce src_id call) s s' quiet h = cc
  apply-Effect now (evaluates unsigned nonce src_id call) s s' quiet h = cc
  apply-Effect now (transfers_fungible dest_id r_id to amount) s s' quiet h =
      idle
        (transfer_with-Kept c dest_id (λ x. Event.fungible_transfer dest_id x r_id amount to) s s'
          h).0
  apply-Effect now (transfers_nonfungible dest_id r_id token to metadata) s s' quiet h =
      idle
        (transfer_with-Kept c dest_id
          (λ x. Event.non_fungible_transfer dest_id x r_id token to metadata) s s' h).0
  apply-Effect now (transfers_generic dest_id r_id metadata) s s' quiet h =
      idle
        (transfer_with-Kept c dest_id (λ x. Event.generic_transfer dest_id x r_id metadata) s s'
          h).0
