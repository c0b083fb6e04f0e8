-- ===== src/Bridge/Fair.antt =====
-- What holds of the votes on a proposal of pallets/chainbridge, over any history of calls.
use fusotao.Prelude.{
  ℕ, ◌≡◌, refl, subst, Bool, true, false, ◌||◌, Option, none, some, List, [], ◌∷◌, ◌++◌, arith,
  ◌==◌, nat_eq, pair_eq, bytes_eq,
}
use fusotao.Support.Storage.{get}
use fusotao.Bridge.Types.{ProposalVotes, ProposalKey, State, Config}
use fusotao.Bridge.Proposals.{
  contains, completed_status, try_to_complete, is_complete, has_voted, with_vote, votes_or_new,
}
use fusotao.Bridge.History.{Call, run}
use fusotao.Bridge.Writes.{Reenters}
use fusotao.Bridge.Votes.{Step, votes_on, evaluates_to, Steps, here, next, run-Steps}

abbrev pub HasNoRepeats : List ℕ → Type 0
HasNoRepeats [] = Unit
HasNoRepeats (x ∷ xs) = (contains x xs ≡ false) × HasNoRepeats xs

-- Nobody votes twice, for or against, and nobody votes for and against.
pub record IsFair (v : ProposalVotes) : Type 0 where
  pub once_for : HasNoRepeats v.votes_for
  pub once_against : HasNoRepeats v.votes_against
  pub one_side : (who : ℕ) → contains who v.votes_for ≡ true → contains who v.votes_against ≡ false

pub contains-append :
    (who x : ℕ) (xs : List ℕ) → contains who (xs ++ (x ∷ [])) ≡ (contains who xs || x == who)
unfolding contains
contains-append who x [] = ground arith
contains-append who x (y ∷ xs) = ground (arith, contains-append who x xs)

HasNoRepeats-append :
    (x : ℕ) (xs : List ℕ) → HasNoRepeats xs → contains x xs ≡ false → HasNoRepeats (xs ++ (x ∷ []))
unfolding contains
HasNoRepeats-append x [] h n = (refl, tt)
HasNoRepeats-append x (y ∷ xs) h n =
    ground (arith, contains-append y x xs, HasNoRepeats-append x xs h.1)

try_to_complete-IsFair :
    (threshold total : ℕ) (v : ProposalVotes)
    → IsFair v
    → IsFair (try_to_complete threshold total v).1
unfolding try_to_complete completed_status
try_to_complete-IsFair threshold total v h = ground arith

with_vote-IsFair :
    (who : ℕ) (b : Bool) (v : ProposalVotes)
    → has_voted who v ≡ false
    → IsFair v
    → IsFair (with_vote who b v)
unfolding has_voted
with_vote-IsFair who true v new h = record {
  once_for = HasNoRepeats-append who v.votes_for h.once_for (ground arith);
  once_against = h.once_against;
  one_side = λ w. ground (arith, contains-append w who v.votes_for, h.one_side w);
}
with_vote-IsFair who false v new h = record {
  once_for = h.once_for;
  once_against = HasNoRepeats-append who v.votes_against h.once_against (ground arith);
  one_side = λ w. ground (arith, contains-append w who v.votes_against, h.one_side w);
}

abbrev pub IsFairOption : Option ProposalVotes → Type 0
IsFairOption none = Unit
IsFairOption (some v) = IsFair v

votes_or_new-IsFair :
    (c : Config) (now : ℕ) (o : Option ProposalVotes)
    → IsFairOption o
    → IsFair (votes_or_new c now o)
unfolding contains
votes_or_new-IsFair c now none h = ground arith
votes_or_new-IsFair c now (some v) h = h

Step-IsFair :
    (c : Config) (o : Option ProposalVotes) (w : ProposalVotes)
    → Step c o w
    → IsFairOption o
    → IsFair w
Step-IsFair c o w (votes_on now who b v e unfinished new f) h =
    rw f (with_vote-IsFair who b v new (rw e (votes_or_new-IsFair c now o h)))
Step-IsFair c o w (evaluates_to threshold total v e unfinished f) h =
    rw f (try_to_complete-IsFair threshold total v (subst IsFairOption e h))

Steps-IsFair :
    (c : Config) (o p : Option ProposalVotes) → Steps c o p → IsFairOption o → IsFairOption p
Steps-IsFair c o p here h = h
Steps-IsFair c o p (next {p = q} {w = w} r st) h = Step-IsFair c q w st (Steps-IsFair c o q r h)

-- A complete proposal takes no step.
complete-Step : (c : Config) (v w : ProposalVotes) → is_complete v ≡ true → ¬ Step c (some v) w
complete-Step c v w h (votes_on now who b u e unfinished new f) = ground arith
complete-Step c v w h (evaluates_to threshold total u e unfinished f) = ground arith

complete-Steps :
    (c : Config) (o p : Option ProposalVotes) (v : ProposalVotes)
    → Steps c o p
    → o ≡ some v
    → is_complete v ≡ true
    → p ≡ some v
complete-Steps c o p v here e h = e
complete-Steps c o p v (next {p = q} {w = w} r st) e h =
    absurd (complete-Step c v w h (subst (λ q. Step c q w) (complete-Steps c o q v r e h) st))

module _ (c : Config) (reenters : Reenters c) where
  open c use {Rest}

  -- No relayer votes twice on a proposal, nor for and against it, over any history of calls from a
  -- state where none has. A dispatched call may come back into the pallet, and is taken to write votes
  -- by `commit_vote` and `try_resolve_proposal` only.
  pub run-IsFair :
      (calls : List (ℕ × Call)) (s : State Rest) (key : ProposalKey)
      → IsFairOption (get key s.votes)
      → IsFairOption (get key (run c calls s).votes)
  run-IsFair calls s key h =
      Steps-IsFair c (get key s.votes) (get key (run c calls s).votes)
        (run-Steps c reenters calls s key) h

  -- A proposal that is approved or rejected stays as it is, votes and status, over any history of
  -- calls. A dispatched call may come back into the pallet, and is taken to write votes by
  -- `commit_vote` and `try_resolve_proposal` only.
  pub run_complete :
      (calls : List (ℕ × Call)) (s : State Rest) (key : ProposalKey) (v : ProposalVotes)
      → get key s.votes ≡ some v
      → is_complete v ≡ true
      → get key (run c calls s).votes ≡ some v
  run_complete calls s key v h done =
      complete-Steps c (get key s.votes) (get key (run c calls s).votes) v
        (run-Steps c reenters calls s key) h done
