-- ===== src/Bridge/Approval.antt =====
-- What a single call on pallets/chainbridge needs to approve a proposal, and who may vote.
use fusotao.Prelude.{
  ℕ, ◌≤◌, ◌≡◌, refl, inl, inr, Bool, true, false, Option, none, some, List, [], arith, nat_eq,
  pair_eq, bytes_eq, length,
}
use fusotao.Support.Storage.{get}
use fusotao.Support.Dispatch.{ok}
use fusotao.Bridge.Types.{ProposalVotes, ProposalKey, initiated, approved, rejected, State, Config}
use fusotao.Bridge.Admin.{is_relayer}
use fusotao.Bridge.Proposals.{contains, completed_status, try_to_complete, with_vote, votes_or_new}
use fusotao.Bridge.History.{Call, apply}
use fusotao.Bridge.Votes.{get-written, get-written_twice}
use fusotao.Bridge.Fair.{contains-append}
use fusotao.Bridge.Effects.{voter, IsQuiet, apply-Effect, idle, votes, evaluation}

abbrev pub votes_for_of : Option ProposalVotes → List ℕ
votes_for_of none = []
votes_for_of (some v) = v.votes_for

abbrev pub is_approved : Option ProposalVotes → Bool
is_approved none = false
is_approved (some v) = elim v.status [ approved ↦ true | initiated ↦ false | rejected ↦ false ]

try_to_complete-threshold :
    (threshold total : ℕ) (v : ProposalVotes)
    → v.status ≡ initiated
    → is_approved (some (try_to_complete threshold total v).1) ≡ true
    → threshold ≤ length (try_to_complete threshold total v).1.votes_for
unfolding try_to_complete completed_status
try_to_complete-threshold threshold total v e h = ground arith

try_to_complete-votes_for :
    (threshold total : ℕ) (v : ProposalVotes)
    → (try_to_complete threshold total v).1.votes_for ≡ v.votes_for
unfolding try_to_complete completed_status
try_to_complete-votes_for threshold total v = ground arith

module _ (c : Config) where
  open c use {Rest}

  -- A call that succeeds and approves a proposal that was not approved leaves it with at least as
  -- many votes in its favour as the relayer threshold, when the call it may dispatch, that
  -- of the proposal it votes on or evaluates, leaves the votes and the relayers alone.
  pub apply-threshold :
      (now : ℕ) (call : Call) (s s' : State Rest) (key : ProposalKey)
      → IsQuiet c call
      → apply c now call s ≡ ok s'
      → is_approved (get key s.votes) ≡ false
      → is_approved (get key s'.votes) ≡ true
      → s.relayer_threshold ≤ length (votes_for_of (get key s'.votes))
  apply-threshold now call s s' key quiet h before later =
      elim (apply-Effect c now call s s' quiet h) [
        | idle e ↦ cc
        | votes who k b v signed_by relayer e unfinished due new w kept ↦
            let v' = (try_to_complete s.relayer_threshold s.relayer_count (with_vote who b v)).1 in
            elim (get-written_twice k key v' (with_vote who b v) s.votes) [
              | inl (same, g) ↦
                  let later' = rw (w, g) at later in
                  rw (w, g)
                    (try_to_complete-threshold s.relayer_threshold s.relayer_count
                      (with_vote who b v) (ground arith) later')
              | inr g ↦ let later' = rw (w, g) at later in cc
            ]
        | evaluation k v e unfinished due w kept ↦
            let v' = (try_to_complete s.relayer_threshold s.relayer_count v).1 in
            elim (get-written k key v' s.votes) [
              | inl (same, g) ↦
                  let later' = rw (w, g) at later in
                  rw (w, g)
                    (try_to_complete-threshold s.relayer_threshold s.relayer_count v (ground arith)
                      later')
              | inr g ↦ let later' = rw (w, g) at later in cc
            ]
      ]

  with_vote-contains :
      (who x : ℕ) (b : Bool) (v : ProposalVotes)
      → contains x v.votes_for ≡ false
      → contains x (with_vote who b v).votes_for ≡ true
      → who ≡ x
  with_vote-contains who x true v h l = ground (arith, contains-append x who v.votes_for)
  with_vote-contains who x false v h l = cc

  votes_or_new-votes_for :
      (now : ℕ) (o : Option ProposalVotes) → (votes_or_new c now o).votes_for ≡ votes_for_of o
  votes_or_new-votes_for now none = refl
  votes_or_new-votes_for now (some v) = refl

  -- A call that succeeds adds nobody to the votes in favour of a proposal but the relayer that signs
  -- it, when the call it may dispatch, that of the proposal it votes on or evaluates, leaves the votes
  -- and the relayers alone.
  pub apply-voter :
      (now : ℕ) (call : Call) (s s' : State Rest) (key : ProposalKey) (who : ℕ)
      → IsQuiet c call
      → apply c now call s ≡ ok s'
      → contains who (votes_for_of (get key s.votes)) ≡ false
      → contains who (votes_for_of (get key s'.votes)) ≡ true
      → (voter call ≡ some who) × (is_relayer c who s ≡ true)
  apply-voter now call s s' key x quiet h before later =
      elim (apply-Effect c now call s s' quiet h) [
        | idle e ↦ cc
        | votes who k b v signed_by relayer e unfinished due new w kept ↦
            let v' = (try_to_complete s.relayer_threshold s.relayer_count (with_vote who b v)).1 in
            elim (get-written_twice k key v' (with_vote who b v) s.votes) [
              | inl (same, g) ↦
                  let later' =
                    rw
                      (
                        w,
                        g,
                        try_to_complete-votes_for s.relayer_threshold s.relayer_count
                            (with_vote who b v),
                      )
                      at later in
                  let before' : contains x v.votes_for ≡ false =
                    rw (e, votes_or_new-votes_for now (get k s.votes), same) before in
                  rw (← with_vote-contains who x b v before' later') (signed_by, relayer)
              | inr g ↦ let later' = rw (w, g) at later in cc
            ]
        | evaluation k v e unfinished due w kept ↦
            let v' = (try_to_complete s.relayer_threshold s.relayer_count v).1 in
            elim (get-written k key v' s.votes) [
              | inl (same, g) ↦
                  let later' =
                    rw (w, g, try_to_complete-votes_for s.relayer_threshold s.relayer_count v) at
                      later in
                  let before' = rw (← same, e) at before in cc
              | inr g ↦ let later' = rw (w, g) at later in cc
            ]
      ]
