-- ===== src/Bridge/History.antt =====
-- Histories of calls on pallets/chainbridge, with the block each runs in. A failed call is undone.
use fusotao.Prelude.{ℕ, List, [], ◌∷◌}
use fusotao.Support.Dispatch.{Result, ok, err, Origin}
use fusotao.Support.XToken.{Bytes}
use fusotao.Bridge.Types.{State, Config}
use fusotao.Bridge.Admin.{
  set_threshold, set_resource, remove_resource, whitelist_chain, add_relayer, remove_relayer,
}
use fusotao.Bridge.Proposals.{acknowledge_proposal, reject_proposal, eval_vote_state}
use fusotao.Bridge.Transfers.{transfer_fungible, transfer_nonfungible, transfer_generic}

-- The dispatchables, and the transfers that other pallets start.
pub data Call : Type 0 where
  sets_threshold whitelists adds_relayer removes_relayer : Origin → ℕ → Call
  sets_resource : Origin → Bytes → Bytes → Call
  removes_resource : Origin → Bytes → Call
  acknowledges : Origin → ℕ → ℕ → Bytes → Bytes → ℕ → Call
  rejects : Origin → ℕ → ℕ → Bytes → ℕ → Call
  evaluates : Origin → ℕ → ℕ → ℕ → Call
  transfers_fungible : ℕ → Bytes → Bytes → ℕ → Call
  transfers_nonfungible : ℕ → Bytes → Bytes → Bytes → Bytes → Call
  transfers_generic : ℕ → Bytes → Bytes → Call

abbrev pub after : {S : Type 0} → S → Result S → S
after s (ok s') = s'
after s (err e) = s

module _ (c : Config) where
  open c use {Rest}

  unfoldable pub apply : ℕ → Call → State Rest → Result (State Rest)
  apply now (sets_threshold origin n) s = set_threshold c origin n s
  apply now (whitelists origin id) s = whitelist_chain c origin id s
  apply now (adds_relayer origin v) s = add_relayer c origin v s
  apply now (removes_relayer origin v) s = remove_relayer c origin v s
  apply now (sets_resource origin id method) s = set_resource c origin id method s
  apply now (removes_resource origin id) s = remove_resource c origin id s
  apply now (acknowledges origin nonce src_id r_id evm_hash call) s =
      acknowledge_proposal c now origin nonce src_id r_id evm_hash call s
  apply now (rejects origin nonce src_id r_id call) s =
      reject_proposal c now origin nonce src_id r_id call s
  apply now (evaluates origin nonce src_id call) s =
      eval_vote_state c now origin nonce src_id call s
  apply now (transfers_fungible dest_id r_id to amount) s =
      transfer_fungible c dest_id r_id to amount s
  apply now (transfers_nonfungible dest_id r_id token to metadata) s =
      transfer_nonfungible c dest_id r_id token to metadata s
  apply now (transfers_generic dest_id r_id metadata) s = transfer_generic c dest_id r_id metadata s

  unfoldable pub run : List (ℕ × Call) → State Rest → State Rest
  unfolding apply
  run [] s = s
  run ((now, call) ∷ calls) s = run calls (after s (apply now call s))
