-- ===== src/Bridge/Relayers.antt =====
-- The relayers: how many there are, and what a dispatched call leaves of them.
use fusotao.Prelude.{
  ℕ, ◌%◌, ◌≡◌, refl, Bool, true, false, arith, Bool-cases, Option-cases, some, none, inl, inr, ◌⊎◌,
  nat_eq, pair_eq, bytes_eq, u32_mod,
}
use fusotao.Support.Storage.{get, insert, get-insert_self, sum_by, sum_by-put}
use fusotao.Support.Dispatch.{ok, Result-cases, Origin, signed}
use fusotao.Support.XToken.{Bytes}
use fusotao.Bridge.Types.{
  ProposalStatus, initiated, approved, rejected, ProposalVotes, State, Config, Event, deposit_event,
}
use fusotao.Bridge.Admin.{
  is_relayer, chain_whitelisted, ensure_resource, set_resource, register_relayer,
  unregister_relayer,
}
use fusotao.Bridge.Proposals.{
  is_complete, is_expired, has_voted, with_vote, votes_or_new, try_to_complete, completed_status,
  commit_vote, finalize_execution, try_resolve_proposal, vote, acknowledge_proposal,
  reject_proposal,
}
use fusotao.Bridge.Transfers.{transfer_with}

-- A call that leaves the relayers and the votes alone when the bridge's account dispatches it, as one
-- that does not come back into this pallet does. Not every call of the runtime is such a call:
-- `eval_vote_state` is open to any signer, and writes votes.
abbrev pub LeavesVotes : Config → ℕ → Type 0
LeavesVotes c call =
    (s s' : State c.Rest)
    → c.dispatch call c.account_id s ≡ ok s'
    → (s'.votes ≡ s.votes)
      × (s'.relayers ≡ s.relayers)
      × (s'.relayer_count ≡ s.relayer_count)
      × (s'.relayer_threshold ≡ s.relayer_threshold)

abbrev pub Kept : {Rest : Type 0} → State Rest → State Rest → Type 0
Kept s s' =
    (s'.relayers ≡ s.relayers)
    × (s'.relayer_count ≡ s.relayer_count)
    × (s'.relayer_threshold ≡ s.relayer_threshold)

abbrev pub counts : ℕ → Bool → ℕ
counts who true = 1
counts who false = 0

-- `RelayerCount` is the number of relayers.
abbrev pub IsCounted : {Rest : Type 0} → State Rest → Type 0
IsCounted s = s.relayer_count ≡ sum_by counts s.relayers % u32_mod

pub Status-cases : (p : ProposalStatus) → (p ≡ initiated) ⊎ ((p ≡ rejected) ⊎ (p ≡ approved))
Status-cases initiated = inl refl
Status-cases rejected = inr (inl refl)
Status-cases approved = inr (inr refl)

module _ (c : Config) where
  open c use {Rest}

  abbrev before : ℕ → ℕ → ℕ → ProposalVotes → State Rest → State Rest
  before src_id nonce prop v s =
      deposit_event (Event.proposal_approved src_id nonce)
        (record s { votes = insert (src_id, (nonce, prop)) v s.votes })

  pub register_relayer-IsCounted :
      (v : ℕ) (s s' : State Rest) → register_relayer c v s ≡ ok s' → IsCounted s → IsCounted s'
  unfolding register_relayer
  register_relayer-IsCounted v s s' h b = elim (Option-cases (get v s.relayers)) [
    | inl new ↦ ground (arith, sum_by-put counts v (some true) s.relayers)
    | inr (flag, found) ↦ elim (Bool-cases flag) [
      | inl on ↦ ground arith
      | inr off ↦ ground (arith, sum_by-put counts v (some true) s.relayers)
    ]
  ]

  pub unregister_relayer-IsCounted :
      (v : ℕ) (s s' : State Rest) → unregister_relayer c v s ≡ ok s' → IsCounted s → IsCounted s'
  unfolding unregister_relayer
  unregister_relayer-IsCounted v s s' h b = elim (Option-cases (get v s.relayers)) [
    | inl new ↦ ground arith
    | inr (flag, found) ↦ elim (Bool-cases flag) [
      | inr off ↦ ground arith
      | inl on ↦ ground (arith, sum_by-put counts v none s.relayers)
    ]
  ]

  -- A proposal that is resolved: it was there and open, and its votes get the status. The relayers
  -- are left alone.
  pub try_resolve_proposal-votes :
      (now nonce src_id prop : ℕ) (s s' : State Rest)
      → LeavesVotes c prop
      → try_resolve_proposal c now nonce src_id prop s ≡ ok s'
      → (v : ProposalVotes) × (get (src_id, (nonce, prop)) s.votes ≡ some v)
        × (is_complete v ≡ false)
        × (is_expired now v ≡ false)
        × (s'.votes
            ≡ insert
                (src_id, (nonce, prop))
                (try_to_complete s.relayer_threshold s.relayer_count v).1
                s.votes)
        × Kept s s'
  unfolding try_resolve_proposal try_to_complete finalize_execution
  try_resolve_proposal-votes now nonce src_id prop s s' quiet h =
      elim (Option-cases (get (src_id, (nonce, prop)) s.votes)) [
        | inl missing ↦ ground arith
        | inr (v, found) ↦
            elim (Status-cases (completed_status s.relayer_threshold s.relayer_count v)) [
              | inl pending ↦ ground arith
              | inr (inl refused) ↦ ground arith
              | inr (inr agreed) ↦
                  let s0 : State Rest =
                    before src_id nonce prop (record v { status = approved }) s in
                  elim (Result-cases (c.dispatch prop c.account_id s0)) [
                    | inl (e, failed) ↦ ground arith
                    | inr (s1, done) ↦ ground (arith, quiet s0 s1 done)
                  ]
            ]
      ]

  -- A vote: the proposal was open, its voter had not voted yet, and the votes with the new one get
  -- the status.
  pub vote-votes :
      (now who nonce src_id prop : ℕ) (b : Bool) (s s' : State Rest)
      → LeavesVotes c prop
      → vote c now who nonce src_id prop b s ≡ ok s'
      → let v = votes_or_new c now (get (src_id, (nonce, prop)) s.votes) in
        (is_complete v ≡ false)
        × (is_expired now v ≡ false)
        × (has_voted who v ≡ false)
        × (s'.votes
            ≡ insert
                (src_id, (nonce, prop))
                (try_to_complete s.relayer_threshold s.relayer_count (with_vote who b v)).1
                (insert (src_id, (nonce, prop)) (with_vote who b v) s.votes))
        × Kept s s'
  unfolding vote commit_vote
  vote-votes now who nonce src_id prop b s s' quiet h =
      elim (Result-cases (commit_vote c now who nonce src_id prop b s)) [
        | inl (e, failed) ↦ ground arith
        | inr (s1, done) ↦ ground (
          arith,
          try_resolve_proposal-votes now nonce src_id prop s1 s' quiet,
          get-insert_self (src_id, (nonce, prop))
              (with_vote who b (votes_or_new c now (get (src_id, (nonce, prop)) s.votes))) s.votes,
        )
      ]

  -- A transfer leaves the votes and the relayers alone.
  pub transfer_with-Kept :
      (dest_id : ℕ) (event : ℕ → Event) (s s' : State Rest)
      → transfer_with c dest_id event s ≡ ok s'
      → (s'.votes ≡ s.votes) × Kept s s'
  unfolding transfer_with
  transfer_with-Kept dest_id event s s' h = ground arith

  pub set_resource-Kept :
      (origin : Origin) (id method : Bytes) (s s' : State Rest)
      → set_resource c origin id method s ≡ ok s'
      → (s'.votes ≡ s.votes) × Kept s s'
  unfolding set_resource
  set_resource-Kept origin id method s s' h = elim (Result-cases (ensure_resource c id s)) [
    | inl (e, failed) ↦ ground arith
    | inr (u, done) ↦ ground arith
  ]

  pub acknowledge_proposal-vote :
      (now : ℕ) (origin : Origin) (nonce src_id : ℕ) (r_id evm_hash : Bytes) (call : ℕ)
      (s s' : State Rest)
      → acknowledge_proposal c now origin nonce src_id r_id evm_hash call s ≡ ok s'
      → (who : ℕ) × (origin ≡ signed who)
        × (is_relayer c who s ≡ true)
        × (chain_whitelisted c src_id s ≡ true)
        × (vote c now who nonce src_id call true
              (deposit_event (Event.proposal_vote src_id evm_hash nonce) s)
            ≡ ok s')
  unfolding acknowledge_proposal
  acknowledge_proposal-vote now origin nonce src_id r_id evm_hash call s s' h = ground arith

  pub reject_proposal-vote :
      (now : ℕ) (origin : Origin) (nonce src_id : ℕ) (r_id : Bytes) (call : ℕ) (s s' : State Rest)
      → reject_proposal c now origin nonce src_id r_id call s ≡ ok s'
      → (who : ℕ) × (origin ≡ signed who)
        × (is_relayer c who s ≡ true)
        × (chain_whitelisted c src_id s ≡ true)
        × (vote c now who nonce src_id call false s ≡ ok s')
  unfolding reject_proposal
  reject_proposal-vote now origin nonce src_id r_id call s s' h = ground arith
