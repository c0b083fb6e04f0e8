-- ===== src/Bridge/Proposals.antt =====
-- Votes on proposals and their execution: pallets/chainbridge/src/lib.rs.
use fusotao.Prelude.{
  ℕ, ◌+◌, ◌%◌, Bool, true, false, not, ◌&&◌, ◌||◌, Option, none, some, List, [], ◌∷◌, ◌++◌, ◌==◌,
  leb, ltb, if◌then◌else◌, length, nat_eq, pair_eq, u32_mod,
}
use fusotao.Support.Storage.{get, insert}
use fusotao.Support.Dispatch.{
  Result, ok, ◌>>=◌, ◌>>◌, ensure, ok_or, BridgeError, Origin, ensure_signed,
}
use fusotao.Support.XToken.{Bytes}
use fusotao.Bridge.Types.{
  ProposalStatus, initiated, approved, rejected, ProposalVotes, default_votes, ProposalKey, State,
  Config, Event, deposit_event, fail,
}
use fusotao.Bridge.Admin.{is_relayer, chain_whitelisted, resource_exists}

-- `Vec::contains`
unfoldable pub contains : ℕ → List ℕ → Bool
contains who [] = false
contains who (v ∷ vs) = v == who || contains who vs

-- The status that `try_to_complete` gives to the votes. The vote counts are cast to `u32`.
unfoldable pub completed_status : ℕ → ℕ → ProposalVotes → ProposalStatus
completed_status threshold total v =
    if leb threshold (length v.votes_for)
    then approved
    else if leb threshold total
        && ltb total ((length v.votes_against % u32_mod + threshold) % u32_mod)
    then rejected
    else initiated

-- `try_to_complete` writes the status where the proposal is complete, and else leaves it.
unfoldable pub try_to_complete : ℕ → ℕ → ProposalVotes → ProposalStatus × ProposalVotes
unfolding completed_status
try_to_complete threshold total v = elim (completed_status threshold total v) [
  | approved ↦ (approved, record v { status = approved })
  | rejected ↦ (rejected, record v { status = rejected })
  | initiated ↦ (initiated, v)
]

abbrev pub is_complete : ProposalVotes → Bool
is_complete v = elim v.status [ initiated ↦ false | approved ↦ true | rejected ↦ true ]

unfoldable pub has_voted : ℕ → ProposalVotes → Bool
unfolding contains
has_voted who v = contains who v.votes_for || contains who v.votes_against

abbrev pub is_expired : ℕ → ProposalVotes → Bool
is_expired now v = leb v.expiry now

-- The votes with one more vote.
abbrev pub with_vote : ℕ → Bool → ProposalVotes → ProposalVotes
with_vote who true v = record v { votes_for = v.votes_for ++ (who ∷ []) }
with_vote who false v = record v { votes_against = v.votes_against ++ (who ∷ []) }

abbrev pub vote_event : ℕ → ℕ → ℕ → Bool → Event
vote_event src_id nonce who true = Event.vote_for src_id nonce who
vote_event src_id nonce who false = Event.vote_against src_id nonce who

module _ (c : Config) where
  open c use {Rest}

  -- A proposal that is not known yet has no votes, and its lifetime begins.
  abbrev pub votes_or_new : ℕ → Option ProposalVotes → ProposalVotes
  votes_or_new now (some v) = v
  votes_or_new now none = record default_votes { expiry = (now + c.proposal_lifetime) % u32_mod }

  unfoldable pub commit_vote : ℕ → ℕ → ℕ → ℕ → ℕ → Bool → State Rest → Result (State Rest)
  unfolding has_voted
  commit_vote now who nonce src_id prop in_favour s = do
    let key : ProposalKey = (src_id, (nonce, prop))
    let votes = votes_or_new now (get key s.votes)
    ensure (not (is_complete votes)) (fail BridgeError.proposal_already_complete)
    ensure (not (is_expired now votes)) (fail BridgeError.proposal_expired)
    ensure (not (has_voted who votes)) (fail BridgeError.relayer_already_voted)
    ok (record (deposit_event (vote_event src_id nonce who in_favour) s) {
      votes = insert key (with_vote who in_favour votes) s.votes;
    })

  -- A call that fails undoes the vote with it, since the error ends the dispatchable.
  unfoldable pub finalize_execution : ℕ → ℕ → ℕ → State Rest → Result (State Rest)
  finalize_execution src_id nonce call s = do
    s' ← c.dispatch call c.account_id (deposit_event (Event.proposal_approved src_id nonce) s)
    ok (deposit_event (Event.proposal_succeeded src_id nonce) s')

  abbrev pub cancel_execution : ℕ → ℕ → State Rest → Result (State Rest)
  cancel_execution src_id nonce s = ok (deposit_event (Event.proposal_rejected src_id nonce) s)

  -- `match status` of `try_resolve_proposal`
  abbrev pub resolve : ProposalStatus → ℕ → ℕ → ℕ → State Rest → Result (State Rest)
  resolve approved src_id nonce prop s = finalize_execution src_id nonce prop s
  resolve rejected src_id nonce prop s = cancel_execution src_id nonce s
  resolve initiated src_id nonce prop s = ok s

  unfoldable pub try_resolve_proposal : ℕ → ℕ → ℕ → ℕ → State Rest → Result (State Rest)
  unfolding try_to_complete finalize_execution
  try_resolve_proposal now nonce src_id prop s = do
    let key : ProposalKey = (src_id, (nonce, prop))
    votes ← ok_or (get key s.votes) (fail BridgeError.proposal_does_not_exist)
    ensure (not (is_complete votes)) (fail BridgeError.proposal_already_complete)
    ensure (not (is_expired now votes)) (fail BridgeError.proposal_expired)
    let (status, votes') = try_to_complete s.relayer_threshold s.relayer_count votes
    resolve status src_id nonce prop (record s { votes = insert key votes' s.votes })

  -- `vote_for` and `vote_against`, by their last argument.
  unfoldable pub vote : ℕ → ℕ → ℕ → ℕ → ℕ → Bool → State Rest → Result (State Rest)
  unfolding commit_vote try_resolve_proposal
  vote now who nonce src_id prop in_favour s = do
    s' ← commit_vote now who nonce src_id prop in_favour s
    try_resolve_proposal now nonce src_id prop s'

  -- The checks that `acknowledge_proposal` and `reject_proposal` share.
  abbrev pub ensure_relayer : ℕ → ℕ → Bytes → State Rest → Result (Unit {0})
  ensure_relayer who src_id r_id s = do
    ensure (is_relayer c who s) (fail BridgeError.must_be_relayer)
    ensure (chain_whitelisted c src_id s) (fail BridgeError.chain_not_whitelisted)
    ensure (resource_exists c r_id s) (fail BridgeError.resource_does_not_exist)

  unfoldable pub acknowledge_proposal :
      ℕ → Origin → ℕ → ℕ → Bytes → Bytes → ℕ → State Rest → Result (State Rest)
  unfolding vote
  acknowledge_proposal now origin nonce src_id r_id evm_hash call s = do
    who ← ensure_signed origin
    ensure_relayer who src_id r_id s
    vote now who nonce src_id call true
        (deposit_event (Event.proposal_vote src_id evm_hash nonce) s)

  unfoldable pub reject_proposal : ℕ → Origin → ℕ → ℕ → Bytes → ℕ → State Rest → Result (State Rest)
  unfolding vote
  reject_proposal now origin nonce src_id r_id call s = do
    who ← ensure_signed origin
    ensure_relayer who src_id r_id s
    vote now who nonce src_id call false s

  unfoldable pub eval_vote_state : ℕ → Origin → ℕ → ℕ → ℕ → State Rest → Result (State Rest)
  unfolding try_resolve_proposal
  eval_vote_state now origin nonce src_id prop s = do
    _ ← ensure_signed origin
    try_resolve_proposal now nonce src_id prop s
