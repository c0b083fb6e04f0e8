-- ===== src/Bridge/Votes.antt =====
-- The life of one proposal of pallets/chainbridge: what the writes of the votes do to it.
use fusotao.Prelude.{
  ℕ, ◌≡◌, refl, ◌⊎◌, inl, inr, Bool, false, Option, some, List, arith, nat_eq, pair_eq, bytes_eq,
}
use fusotao.Support.Storage.{StorageMap, get, insert, get-insert}
use fusotao.Bridge.Types.{ProposalVotes, ProposalKey, State, Config}
use fusotao.Bridge.Proposals.{try_to_complete, is_complete, has_voted, with_vote, votes_or_new}
use fusotao.Bridge.History.{Call, run}
use fusotao.Bridge.Writes.{VotesMap, Writes, nothing, voted, evaluated, Reenters, run-Writes}

-- One step of a proposal, from what is stored of it to its next votes.
pub data Step (c : Config) (o : Option ProposalVotes) (w : ProposalVotes) : Type 0 where
  votes_on :
      (now who : ℕ) (b : Bool) (v : ProposalVotes)
      → v ≡ votes_or_new c now o
      → is_complete v ≡ false
      → has_voted who v ≡ false
      → w ≡ with_vote who b v
      → Step c o w
  evaluates_to :
      (threshold total : ℕ) (v : ProposalVotes)
      → o ≡ some v
      → is_complete v ≡ false
      → w ≡ (try_to_complete threshold total v).1
      → Step c o w

-- Any number of steps.
pub data Steps (c : Config) (o : Option ProposalVotes) : Option ProposalVotes → Type 0 where
  here : Steps c o o
  next :
      {p : Option ProposalVotes} {w : ProposalVotes} → Steps c o p → Step c p w → Steps c o (some w)

pub get-written :
    (k key : ProposalKey) (v : ProposalVotes) (m : StorageMap ProposalKey ProposalVotes)
    → ((k ≡ key) × (get key (insert k v m) ≡ some v)) ⊎ (get key (insert k v m) ≡ get key m)
get-written k key v m =
    ground (arith, get-insert k key v m, (pair_eq {A = ℕ} {B = ℕ × ℕ}).beq_iff k key)

pub get-written_twice :
    (k key : ProposalKey) (v w : ProposalVotes) (m : StorageMap ProposalKey ProposalVotes)
    → ((k ≡ key) × (get key (insert k v (insert k w m)) ≡ some v))
      ⊎ (get key (insert k v (insert k w m)) ≡ get key m)
get-written_twice k key v w m = ground (
  arith,
  get-insert k key v (insert k w m),
  get-insert k key w m,
  (pair_eq {A = ℕ} {B = ℕ × ℕ}).beq_iff k key,
)

Writes-Steps :
    (c : Config) (m m' : VotesMap) (key : ProposalKey)
    → Writes c m m'
    → Steps c (get key m) (get key m')
Writes-Steps c m m' key nothing = here
Writes-Steps c m m' key (voted {m1 = m1} now who b k v r e open_ due new w) =
    elim (get-written k key (with_vote who b v) m1) [
      | inl (same, g) ↦
          rw (w, g)
            (next (Writes-Steps c m m1 key r) (votes_on now who b v (rw (← same) e) open_ new refl))
      | inr g ↦ rw (w, g) (Writes-Steps c m m1 key r)
    ]
Writes-Steps c m m' key (evaluated {m1 = m1} now threshold total k v r e open_ due w) =
    elim (get-written k key (try_to_complete threshold total v).1 m1) [
      | inl (same, g) ↦
          rw (w, g)
            (next (Writes-Steps c m m1 key r)
              (evaluates_to threshold total v (rw (← same) e) open_ refl))
      | inr g ↦ rw (w, g) (Writes-Steps c m m1 key r)
    ]

pub run-Steps :
    (c : Config) (reenters : Reenters c) (calls : List (ℕ × Call)) (s : State c.Rest)
    (key : ProposalKey)
    → Steps c (get key s.votes) (get key (run c calls s).votes)
run-Steps c reenters calls s key =
    Writes-Steps c s.votes (run c calls s).votes key (run-Writes c reenters calls s)
