-- ===== src/Bridge/Tests.antt =====
-- The theorems on the bridge at a concrete state.
use fusotao.Prelude.{
  ℕ, ◌+◌, ◌≤◌, ◌≡◌, refl, ap, true, false, some, [], ◌∷◌, arith, nat_eq, pair_eq, bytes_eq, length,
}
use fusotao.Support.Storage.{get, insert, sum_by}
use fusotao.Support.Dispatch.{ok, root}
use fusotao.Support.Resource.{
  derive_resource_id, decode_derived, decode_resource_id-derive_resource_id,
}
use fusotao.Bridge.Quorum.{IsExecuted, run-IsExecuted}
use fusotao.Bridge.Types.{ProposalVotes, approved, State}
use fusotao.Bridge.Proposals.{
  contains, completed_status, try_to_complete, has_voted, commit_vote, finalize_execution,
  try_resolve_proposal, vote, acknowledge_proposal, eval_vote_state,
}
use fusotao.Bridge.Admin.{is_relayer, register_relayer, add_relayer}
use fusotao.Bridge.History.{after, apply, run, adds_relayer}
use fusotao.Bridge.Relayers.{IsCounted}
use fusotao.Bridge.Effects.{voter}
use fusotao.Bridge.Fair.{IsFairOption, run-IsFair, run_complete}
use fusotao.Bridge.Approval.{votes_for_of, is_approved, apply-threshold, apply-voter}
use fusotao.Bridge.Counted.{apply-IsCounted}
use fusotao.Bridge.Sample.{
  small_bridge, small_bridge-LeavesVotes, returning_bridge, returning_bridge-Reenters, other_key,
  waiting, three_relayers, the_key, acknowledgement_of, two_votes, late_vote,
}

abbrev after_one : State ℕ
after_one = run small_bridge (acknowledgement_of 1 ∷ []) three_relayers

abbrev after_two : State ℕ
after_two = run small_bridge two_votes three_relayers

abbrev approved_votes : ProposalVotes
approved_votes = record {
  votes_for = 1 ∷ 2 ∷ [];
  votes_against = [];
  status = approved;
  expiry = 110;
}

two_votes_approve : get the_key after_two.votes ≡ some approved_votes
unfolding run apply acknowledge_proposal vote commit_vote try_resolve_proposal try_to_complete
    completed_status has_voted contains finalize_execution get insert
two_votes_approve = refl

-- Both proposals are approved, the waiting one by the call that the other one dispatches.
abbrev both_done : State ℕ
both_done = run returning_bridge two_votes waiting

abbrev waiting_votes : ProposalVotes
waiting_votes = record {
  votes_for = 1 ∷ 3 ∷ [];
  votes_against = [];
  status = approved;
  expiry = 50;
}

both_approve : get other_key both_done.votes ≡ some waiting_votes
unfolding run apply acknowledge_proposal vote commit_vote try_resolve_proposal try_to_complete
    completed_status has_voted contains finalize_execution get insert eval_vote_state
both_approve = refl

waiting-IsFair : IsFairOption (get other_key waiting.votes)
unfolding get contains
waiting-IsFair = record {
  once_for = (refl, (refl, tt));
  once_against = tt;
  one_side = λ who h. refl;
}

run-IsFair_example : IsFairOption (get other_key both_done.votes)
run-IsFair_example =
    run-IsFair returning_bridge returning_bridge-Reenters two_votes waiting other_key waiting-IsFair

run_complete_example :
    get other_key (run returning_bridge late_vote both_done).votes ≡ some waiting_votes
run_complete_example =
    run_complete returning_bridge returning_bridge-Reenters late_vote both_done other_key
      waiting_votes both_approve refl

last_vote : apply small_bridge 10 (acknowledgement_of 2).1 after_one ≡ ok after_two
unfolding run apply acknowledge_proposal vote commit_vote try_resolve_proposal try_to_complete
    completed_status has_voted contains finalize_execution get insert
last_vote = refl

open_before : is_approved (get the_key after_one.votes) ≡ false
unfolding run apply acknowledge_proposal vote commit_vote try_resolve_proposal try_to_complete
    completed_status has_voted contains finalize_execution get insert
open_before = refl

apply-threshold_example : 2 ≤ length (votes_for_of (get the_key after_two.votes))
unfolding run apply acknowledge_proposal vote commit_vote try_resolve_proposal try_to_complete
    completed_status has_voted contains finalize_execution get insert
apply-threshold_example =
    apply-threshold small_bridge 10 (acknowledgement_of 2).1 after_one after_two the_key
      (λ p e. small_bridge-LeavesVotes p) last_vote open_before (ap is_approved two_votes_approve)

apply-voter_example :
    (voter (acknowledgement_of 2).1 ≡ some 2) × (is_relayer small_bridge 2 after_one ≡ true)
unfolding run apply acknowledge_proposal vote commit_vote try_resolve_proposal try_to_complete
    completed_status has_voted contains finalize_execution get insert
apply-voter_example =
    apply-voter small_bridge 10 (acknowledgement_of 2).1 after_one after_two the_key 2
      (λ p e. small_bridge-LeavesVotes p) last_vote refl refl

apply-IsCounted_example :
    IsCounted (after three_relayers (apply small_bridge 1 (adds_relayer root 4) three_relayers))
unfolding apply add_relayer register_relayer sum_by get insert
apply-IsCounted_example =
    apply-IsCounted small_bridge 1 (adds_relayer root 4) three_relayers
      (after three_relayers (apply small_bridge 1 (adds_relayer root 4) three_relayers))
      (λ p e. small_bridge-LeavesVotes p) refl refl

run-IsExecuted_example :
    IsExecuted small_bridge 10 0 7 5
      (1 ∷ [])
      []
      (1 ∷ 2 ∷ [])
      three_relayers
      (run small_bridge two_votes three_relayers)
unfolding get contains
run-IsExecuted_example =
    run-IsExecuted small_bridge 10 0 7 5 (1 ∷ []) [] (1 ∷ 2 ∷ []) three_relayers
      (small_bridge-LeavesVotes 5) (λ s e. (record s { rest = s.rest + 5 }, refl)) refl refl refl
      (ground arith) (ground arith) (refl, (refl, tt)) (refl, (refl, tt)) (ground arith) refl

-- The id 5, 6 on chain 300.
decode_resource_id-derive_resource_id_example :
    decode_derived (derive_resource_id 300 1 (5 ∷ 6 ∷ [])) ≡ some (300, (1, 5 ∷ 6 ∷ []))
decode_resource_id-derive_resource_id_example =
    decode_resource_id-derive_resource_id 300 1 (5 ∷ 6 ∷ []) (ground arith)
