-- ===== src/Bridge/Sample.antt =====
-- A small bridge with three relayers and a threshold of two, for the tests.
use fusotao.Prelude.{
  ℕ, ◌+◌, ◌≡◌, Bool, refl, Option, some, true, false, none, List, [], ◌∷◌, arith, nat_eq, pair_eq,
  bytes_eq,
}
use fusotao.Support.Storage.{get}
use fusotao.Support.Dispatch.{Origin, ok, root, unsigned, signed}
use fusotao.Bridge.Types.{ProposalVotes, ProposalKey, initiated, State, Config}
use fusotao.Bridge.History.{Call, acknowledges, rejects}
use fusotao.Bridge.Proposals.{votes_or_new, eval_vote_state}
use fusotao.Bridge.Relayers.{LeavesVotes}
use fusotao.Bridge.Writes.{
  VotesMap, nothing, voted, evaluated, Writes, Reenters, Writes-same, try_resolve_proposal-Writes,
}

abbrev pub is_root : Origin → Bool
is_root root = true
is_root unsigned = false
is_root (signed who) = false

-- The rest of the chain is a number, which a call adds its own number to.
abbrev pub small_bridge : Config
small_bridge = record {
  Rest = ℕ;
  is_admin = is_root;
  chain_id = 42;
  proposal_lifetime = 100;
  native_resource_id = [];
  account_id = 999;
  try_get_asset_id = λ chain contract s. none;
  dispatch = λ call who s. ok (record s { rest = s.rest + call });
}

pub small_bridge-LeavesVotes : (call : ℕ) → LeavesVotes small_bridge call
small_bridge-LeavesVotes call s s' h = ground arith

pub small_bridge-Reenters : Reenters small_bridge
small_bridge-Reenters call s s' h =
    Writes-same small_bridge s.votes s'.votes (small_bridge-LeavesVotes call s s' h).0

-- The same bridge where any call comes back into the pallet: it is `eval_vote_state` of the proposal
-- of call 6 with nonce 1 from chain 7.
abbrev pub returning_bridge : Config
returning_bridge = record small_bridge {
  dispatch = λ call who s. eval_vote_state small_bridge 10 (signed who) 1 7 6 s;
}

same_new :
    (now : ℕ) (o : Option ProposalVotes)
    → votes_or_new small_bridge now o ≡ votes_or_new returning_bridge now o
same_new now none = refl
same_new now (some v) = refl

same_Writes : (m m' : VotesMap) → Writes small_bridge m m' → Writes returning_bridge m m'
same_Writes m m' nothing = nothing
same_Writes m m' (voted {m1 = m1} now who b k v r e open_ due new w) =
    voted now who b k v (same_Writes m m1 r) (rw (← same_new now (get k m1)) e) open_ due new w
same_Writes m m' (evaluated {m1 = m1} now threshold total k v r e open_ due w) =
    evaluated now threshold total k v (same_Writes m m1 r) e open_ due w

pub returning_bridge-Reenters : Reenters returning_bridge
unfolding eval_vote_state
returning_bridge-Reenters call s s' h =
    same_Writes s.votes s'.votes
      (try_resolve_proposal-Writes small_bridge small_bridge-Reenters 10 1 7 6 s s' h)

abbrev pub three_relayers : State ℕ
three_relayers = record {
  chain_nonces = (7, 0) ∷ [];
  relayer_threshold = 2;
  relayers = (1, true) ∷ (2, true) ∷ (3, true) ∷ [];
  relayer_count = 3;
  votes = [];
  resources = (1 ∷ [], []) ∷ [];
  events = [];
  rest = 0;
}

-- The proposal of call 5 with nonce 0 from chain 7.
abbrev pub the_key : ProposalKey
the_key = (7, (0, 5))

abbrev pub acknowledgement_of : ℕ → ℕ × Call
acknowledgement_of who = (10, acknowledges (signed who) 0 7 (1 ∷ []) [] 5)

abbrev pub two_votes : List (ℕ × Call)
two_votes = acknowledgement_of 1 ∷ acknowledgement_of 2 ∷ []

abbrev pub other_key : ProposalKey
other_key = (7, (1, 6))

-- The threshold was lowered after two relayers voted on the other proposal.
abbrev pub waiting : State ℕ
waiting = record three_relayers {
  votes =
      (
        other_key,
        record { votes_for = 1 ∷ 3 ∷ []; votes_against = []; status = initiated; expiry = 50 },
      )
      ∷ [];
}

abbrev pub late_vote : List (ℕ × Call)
late_vote = (11, rejects (signed 3) 0 7 (1 ∷ []) 5) ∷ []
