-- ===== src/Bridge/Ready.antt =====
-- An open proposal of pallets/chainbridge that relayers acknowledge: what one acknowledgement comes to.
use fusotao.Prelude.{
  ℕ, ◌+◌, ◌≤◌, ◌<◌, ◌≡◌, refl, true, false, some, List, [], ◌∷◌, arith, nat_eq, pair_eq, bytes_eq,
  length, length-append,
}
use fusotao.Support.Storage.{get, insert, get-insert_self}
use fusotao.Support.Dispatch.{ok, signed}
use fusotao.Support.XToken.{Bytes}
use fusotao.Bridge.Types.{ProposalVotes, initiated, approved, State, Config, Event, deposit_event}
use fusotao.Bridge.Admin.{is_relayer, resource_exists, chain_whitelisted}
use fusotao.Bridge.Proposals.{
  contains, completed_status, try_to_complete, is_complete, has_voted, is_expired, with_vote,
  votes_or_new, commit_vote, resolve, try_resolve_proposal, vote, acknowledge_proposal,
}
use fusotao.Bridge.History.{Call, acknowledges}

module _ (c : Config) (now nonce src_id call : ℕ) (r_id evm_hash : Bytes) where
  open c use {Rest}

  abbrev pub acknowledgement : ℕ → ℕ × Call
  acknowledgement who = (now, acknowledges (signed who) nonce src_id r_id evm_hash call)

  abbrev pub so_far : State Rest → ProposalVotes
  so_far s = votes_or_new c now (get (src_id, (nonce, call)) s.votes)

  -- The proposal is open, and those in `whos` have voted, all in favour.
  pub record Ready (whos : List ℕ) (s : State Rest) : Type 0 where
    pub listed : chain_whitelisted c src_id s ≡ true
    pub known : resource_exists c r_id s ≡ true
    pub in_favour : (so_far s).votes_for ≡ whos
    pub against : (so_far s).votes_against ≡ []
    pub undecided : (so_far s).status ≡ initiated
    pub in_time : now < (so_far s).expiry

  commit_vote-ok :
      (who : ℕ) (s : State Rest)
      → is_complete (so_far s) ≡ false
      → is_expired now (so_far s) ≡ false
      → has_voted who (so_far s) ≡ false
      → commit_vote c now who nonce src_id call true s
        ≡ ok (record s {
          events = Event.vote_for src_id nonce who ∷ s.events;
          votes = insert (src_id, (nonce, call)) (with_vote who true (so_far s)) s.votes;
        })
  unfolding commit_vote
  commit_vote-ok who s open_ due new = rw (open_, due, new) refl

  try_resolve_proposal-ok :
      (v : ProposalVotes) (s : State Rest)
      → get (src_id, (nonce, call)) s.votes ≡ some v
      → is_complete v ≡ false
      → is_expired now v ≡ false
      → try_resolve_proposal c now nonce src_id call s
        ≡ resolve c
            (try_to_complete s.relayer_threshold s.relayer_count v).0
            src_id
            nonce
            call
            (record s {
              votes =
                  insert
                    (src_id, (nonce, call))
                    (try_to_complete s.relayer_threshold s.relayer_count v).1
                    s.votes;
            })
  unfolding try_resolve_proposal
  try_resolve_proposal-ok v s found open_ due = rw (found, open_, due) refl

  -- What an acknowledgement of an open proposal comes to.
  pub acknowledge-ok :
      (who : ℕ) (whos : List ℕ) (s : State Rest)
      → Ready whos s
      → is_relayer c who s ≡ true
      → contains who whos ≡ false
      → let v = with_vote who true (so_far s) in
        let outcome = try_to_complete s.relayer_threshold s.relayer_count v in
        acknowledge_proposal c now (signed who) nonce src_id r_id evm_hash call s
        ≡ resolve c outcome.0 src_id nonce call (record s {
          events =
              Event.vote_for src_id nonce who
              ∷ Event.proposal_vote src_id evm_hash nonce
              ∷ s.events;
          votes =
              insert (src_id, (nonce, call)) outcome.1 (insert (src_id, (nonce, call)) v s.votes);
        })
  unfolding acknowledge_proposal vote
  acknowledge-ok who whos s ready relayer new =
      rw
        (
          relayer,
          ready.listed,
          ready.known,
          commit_vote-ok who (deposit_event (Event.proposal_vote src_id evm_hash nonce) s)
              (ground arith) (ground arith) (unfold has_voted contains in ground arith),
        )
        (try_resolve_proposal-ok (with_vote who true (so_far s)) _
          (get-insert_self (src_id, (nonce, call)) (with_vote who true (so_far s)) s.votes)
          (ground arith) (ground arith))

  -- Too few votes leave the proposal open, and enough approve it.
  pub few-try_to_complete :
      (who : ℕ) (whos : List ℕ) (threshold total : ℕ) (v : ProposalVotes)
      → v.votes_for ≡ whos
      → v.votes_against ≡ []
      → length whos + 1 < threshold
      → try_to_complete threshold total (with_vote who true v) ≡ (initiated, with_vote who true v)
  unfolding try_to_complete completed_status
  few-try_to_complete who whos threshold total v e a few =
      ground (arith, length-append whos (who ∷ []))

  pub enough-try_to_complete :
      (who : ℕ) (whos : List ℕ) (threshold total : ℕ) (v : ProposalVotes)
      → v.votes_for ≡ whos
      → threshold ≤ length whos + 1
      → try_to_complete threshold total (with_vote who true v)
        ≡ (approved, record (with_vote who true v) { status = approved })
  unfolding try_to_complete completed_status
  enough-try_to_complete who whos threshold total v e enough =
      ground (arith, length-append whos (who ∷ []))
