-- ===== src/Bridge/Writes.antt =====
-- How the votes of pallets/chainbridge are written: `commit_vote` and `try_resolve_proposal` are the
-- only two that write them, also where a dispatched call comes back into the pallet.
use fusotao.Prelude.{
  ℕ, ◌≡◌, refl, inl, inr, Bool, true, false, some, List, [], ◌∷◌, arith, Option-cases, nat_eq,
  pair_eq, bytes_eq,
}
use fusotao.Support.Storage.{StorageMap, get, insert}
use fusotao.Support.Dispatch.{ok, Result-cases, root, unsigned, signed}
use fusotao.Bridge.Types.{ProposalVotes, ProposalKey, approved, State, Config, Event, deposit_event}
use fusotao.Bridge.Admin.{
  set_threshold, set_relayer_threshold, remove_resource, whitelist_chain, whitelist, add_relayer,
  register_relayer, remove_relayer, unregister_relayer,
}
use fusotao.Bridge.Proposals.{
  is_complete, is_expired, has_voted, with_vote, votes_or_new, try_to_complete, completed_status,
  commit_vote, finalize_execution, try_resolve_proposal, vote, eval_vote_state,
}
use fusotao.Bridge.Transfers.{transfer_fungible, transfer_nonfungible, transfer_generic}
use fusotao.Bridge.History.{
  Call, after, apply, run, sets_threshold, whitelists, adds_relayer, removes_relayer, sets_resource,
  removes_resource, acknowledges, rejects, evaluates, transfers_fungible, transfers_nonfungible,
  transfers_generic,
}
use fusotao.Bridge.Relayers.{
  Status-cases, transfer_with-Kept, set_resource-Kept, acknowledge_proposal-vote,
  reject_proposal-vote,
}

abbrev pub VotesMap : Type 0
VotesMap = StorageMap ProposalKey ProposalVotes

-- Any number of writes, each of a new vote or of an evaluation. The block, the threshold and the
-- number of relayers are whatever they are at that moment.
pub data Writes (c : Config) (m : VotesMap) : VotesMap → Type 0 where
  nothing : Writes c m m
  voted :
      {m1 m2 : VotesMap} (now who : ℕ) (b : Bool) (key : ProposalKey) (v : ProposalVotes)
      → Writes c m m1
      → v ≡ votes_or_new c now (get key m1)
      → is_complete v ≡ false
      → is_expired now v ≡ false
      → has_voted who v ≡ false
      → m2 ≡ insert key (with_vote who b v) m1
      → Writes c m m2
  evaluated :
      {m1 m2 : VotesMap} (now threshold total : ℕ) (key : ProposalKey) (v : ProposalVotes)
      → Writes c m m1
      → get key m1 ≡ some v
      → is_complete v ≡ false
      → is_expired now v ≡ false
      → m2 ≡ insert key (try_to_complete threshold total v).1 m1
      → Writes c m m2

-- A dispatched call may come back into this pallet, by `eval_vote_state` or any other call of it. It
-- has no other way to the votes than those two functions.
abbrev pub Reenters : Config → Type 0
Reenters c =
    (call : ℕ) (s s' : State c.Rest)
    → c.dispatch call c.account_id s ≡ ok s'
    → Writes c s.votes s'.votes

Writes-trans : (c : Config) (m m1 m2 : VotesMap) → Writes c m m1 → Writes c m1 m2 → Writes c m m2
Writes-trans c m m1 m2 a nothing = a
Writes-trans c m m1 m2 a (voted {m1 = m3} now who b key v r e open_ due new w) =
    voted now who b key v (Writes-trans c m m1 m3 a r) e open_ due new w
Writes-trans c m m1 m2 a (evaluated {m1 = m3} now threshold total key v r e open_ due w) =
    evaluated now threshold total key v (Writes-trans c m m1 m3 a r) e open_ due w

pub Writes-same : (c : Config) (m m' : VotesMap) → m' ≡ m → Writes c m m'
Writes-same c m m' e = rw e nothing

module _ (c : Config) (reenters : Reenters c) where
  open c use {Rest}

  abbrev approving : ℕ → ℕ → ℕ → ProposalVotes → State Rest → State Rest
  approving src_id nonce prop v s =
      deposit_event (Event.proposal_approved src_id nonce)
        (record s { votes = insert (src_id, (nonce, prop)) v s.votes })

  pub try_resolve_proposal-Writes :
      (now nonce src_id prop : ℕ) (s s' : State Rest)
      → try_resolve_proposal c now nonce src_id prop s ≡ ok s'
      → Writes c s.votes s'.votes
  unfolding try_resolve_proposal try_to_complete finalize_execution
  try_resolve_proposal-Writes now nonce src_id prop s s' h =
      let key : ProposalKey = (src_id, (nonce, prop)) in
      elim (Option-cases (get key s.votes)) [
        | inl missing ↦ absurd (ground arith)
        | inr (v, found) ↦
            elim (Status-cases (completed_status s.relayer_threshold s.relayer_count v)) [
              | inl pending ↦
                  evaluated now s.relayer_threshold s.relayer_count key v nothing found
                    (ground arith) (ground arith) (ground arith)
              | inr (inl refused) ↦
                  evaluated now s.relayer_threshold s.relayer_count key v nothing found
                    (ground arith) (ground arith) (ground arith)
              | inr (inr agreed) ↦
                  let v' : ProposalVotes = record v { status = approved } in
                  let s0 : State Rest = approving src_id nonce prop v' s in
                  elim (Result-cases (c.dispatch prop c.account_id s0)) [
                    | inl (e, failed) ↦ absurd (ground arith)
                    | inr (s1, done) ↦
                        let same : s'.votes ≡ s1.votes = ground arith in
                        Writes-trans c s.votes s0.votes s'.votes
                          (evaluated now s.relayer_threshold s.relayer_count key v nothing found
                            (ground arith) (ground arith) (ground arith))
                          (rw same (reenters prop s0 s1 done))
                  ]
            ]
      ]

  vote-Writes :
      (now who nonce src_id prop : ℕ) (b : Bool) (s s' : State Rest)
      → vote c now who nonce src_id prop b s ≡ ok s'
      → Writes c s.votes s'.votes
  unfolding vote commit_vote
  vote-Writes now who nonce src_id prop b s s' h =
      let key : ProposalKey = (src_id, (nonce, prop)) in
      elim (Result-cases (commit_vote c now who nonce src_id prop b s)) [
        | inl (e, failed) ↦ absurd (ground arith)
        | inr (s1, done) ↦
            Writes-trans c s.votes s1.votes s'.votes
              (voted now who b key (votes_or_new c now (get key s.votes)) nothing refl
                (ground arith) (ground arith) (ground arith) (ground arith))
              (try_resolve_proposal-Writes now nonce src_id prop s1 s' (ground arith))
      ]

  -- A call that succeeds writes votes in no other way.
  pub apply-Writes :
      (now : ℕ) (call : Call) (s s' : State Rest)
      → apply c now call s ≡ ok s'
      → Writes c s.votes s'.votes
  unfolding apply set_threshold set_relayer_threshold whitelist_chain whitelist add_relayer
      remove_relayer remove_resource register_relayer unregister_relayer transfer_fungible
      transfer_nonfungible transfer_generic eval_vote_state
  apply-Writes now (sets_threshold origin n) s s' h = Writes-same c s.votes s'.votes (ground arith)
  apply-Writes now (whitelists origin id) s s' h = Writes-same c s.votes s'.votes (ground arith)
  apply-Writes now (adds_relayer origin v) s s' h = Writes-same c s.votes s'.votes (ground arith)
  apply-Writes now (removes_relayer origin v) s s' h = Writes-same c s.votes s'.votes (ground arith)
  apply-Writes now (sets_resource origin id method) s s' h =
      Writes-same c s.votes s'.votes (set_resource-Kept c origin id method s s' h).0
  apply-Writes now (removes_resource origin id) s s' h =
      Writes-same c s.votes s'.votes (ground arith)
  apply-Writes now (acknowledges origin nonce src_id r_id evm_hash call) s s' h =
      let (who, e, rel, chain, done) =
        acknowledge_proposal-vote c now origin nonce src_id r_id evm_hash call s s' h in
      vote-Writes now who nonce src_id call true
        (deposit_event (Event.proposal_vote src_id evm_hash nonce) s) s' done
  apply-Writes now (rejects origin nonce src_id r_id call) s s' h =
      let (who, e, rel, chain, done) =
        reject_proposal-vote c now origin nonce src_id r_id call s s' h in
      vote-Writes now who nonce src_id call false s s' done
  apply-Writes now (evaluates (signed who) nonce src_id call) s s' h =
      try_resolve_proposal-Writes now nonce src_id call s s' h
  apply-Writes now (evaluates root nonce src_id call) s s' h = absurd (cc)
  apply-Writes now (evaluates unsigned nonce src_id call) s s' h = absurd (cc)
  apply-Writes now (transfers_fungible dest_id r_id to amount) s s' h =
      Writes-same c s.votes s'.votes
        (transfer_with-Kept c dest_id (λ x. Event.fungible_transfer dest_id x r_id amount to) s s'
          h).0
  apply-Writes now (transfers_nonfungible dest_id r_id token to metadata) s s' h =
      Writes-same c s.votes s'.votes
        (transfer_with-Kept c dest_id
          (λ x. Event.non_fungible_transfer dest_id x r_id token to metadata) s s' h).0
  apply-Writes now (transfers_generic dest_id r_id metadata) s s' h =
      Writes-same c s.votes s'.votes
        (transfer_with-Kept c dest_id (λ x. Event.generic_transfer dest_id x r_id metadata) s s'
          h).0

  after-Writes :
      (now : ℕ) (call : Call) (s : State Rest)
      → Writes c s.votes (after s (apply c now call s)).votes
  after-Writes now call s = elim (Result-cases (apply c now call s)) [
    | inl (e, failed) ↦ rw failed nothing
    | inr (s', done) ↦ rw done (apply-Writes now call s s' done)
  ]

  pub run-Writes :
      (calls : List (ℕ × Call)) (s : State Rest) → Writes c s.votes (run c calls s).votes
  unfolding run
  run-Writes [] s = nothing
  run-Writes ((now, call) ∷ calls) s =
      let s1 = after s (apply c now call s) in
      Writes-trans c s.votes s1.votes (run c calls s1).votes (after-Writes now call s)
        (run-Writes calls s1)
