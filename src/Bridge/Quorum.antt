-- ===== src/Bridge/Quorum.antt =====
-- A proposal that enough relayers of pallets/chainbridge acknowledge is approved and carried out.
use fusotao.Prelude.{
  ℕ, ◌+◌, ◌≤◌, ◌<◌, ◌≡◌, refl, ap, true, false, none, some, List, [], ◌∷◌, ◌++◌, map, arith, nat_eq,
  pair_eq, bytes_eq, u32_mod, length, length-append, append-snoc,
}
use fusotao.Support.Storage.{get, insert, get-insert_self}
use fusotao.Support.Dispatch.{ok}
use fusotao.Support.XToken.{Bytes}
use fusotao.Bridge.Types.{ProposalVotes, approved, State, Config, Event, deposit_event}
use fusotao.Bridge.Admin.{is_relayer, resource_exists, chain_whitelisted}
use fusotao.Bridge.Proposals.{contains, with_vote, finalize_execution}
use fusotao.Bridge.History.{after, apply, run}
use fusotao.Bridge.Fair.{HasNoRepeats, contains-append}
use fusotao.Bridge.Relayers.{LeavesVotes, Kept}
use fusotao.Bridge.Ready.{
  acknowledgement, so_far, Ready, acknowledge-ok, few-try_to_complete, enough-try_to_complete,
}

abbrev pub AreRelayers : (c : Config) → List ℕ → State c.Rest → Type 0
AreRelayers c [] s = Unit
AreRelayers c (who ∷ whos) s = (is_relayer c who s ≡ true) × AreRelayers c whos s

module _ (c : Config) (now nonce src_id call : ℕ) (r_id evm_hash : Bytes) where
  open c use {Rest}

  -- The dispatched call succeeds on the rest of the chain as it is in `s`.
  abbrev pub Works : State Rest → Type 0
  Works s =
      (s0 : State Rest)
      → s0.rest ≡ s.rest
      → (s1 : State Rest) × (c.dispatch call c.account_id s0 ≡ ok s1)

  -- The proposal is approved by `whos`, and `s'` is what dispatching its call leaves, but for the last
  -- event. The call is dispatched on the rest of the chain as it is in `s`.
  abbrev pub IsExecuted : List ℕ → State Rest → State Rest → Type 0
  IsExecuted whos s s' =
      ((v : ProposalVotes) × (get (src_id, (nonce, call)) s'.votes ≡ some v)
        × (v.status ≡ approved)
        × (v.votes_for ≡ whos))
      × (s0 : State Rest) × (s1 : State Rest) × (s0.rest ≡ s.rest)
      × (c.dispatch call c.account_id s0 ≡ ok s1)
      × (s' ≡ deposit_event (Event.proposal_succeeded src_id nonce) s1)

  -- With one more vote than `whos` and still too few, the proposal stays open.
  acknowledge-Ready :
      (who : ℕ) (whos : List ℕ) (s : State Rest)
      → Ready c now nonce src_id call r_id evm_hash whos s
      → is_relayer c who s ≡ true
      → contains who whos ≡ false
      → length whos + 1 < s.relayer_threshold
      → let s' =
          after s (apply c now (acknowledgement c now nonce src_id call r_id evm_hash who).1 s) in
        Ready c now nonce src_id call r_id evm_hash (whos ++ (who ∷ [])) s'
        × Kept s s'
        × (s'.rest ≡ s.rest)
  unfolding apply
  acknowledge-Ready who whos s ready relayer new few =
      rw
        (
          acknowledge-ok c now nonce src_id call r_id evm_hash who whos s ready relayer new,
          few-try_to_complete c now nonce src_id call r_id evm_hash who whos s.relayer_threshold
              s.relayer_count (so_far c now nonce src_id call r_id evm_hash s) ready.in_favour
              ready.against few,
        )
        (ground (
          arith,
          get-insert_self (src_id, (nonce, call))
              (with_vote who true (so_far c now nonce src_id call r_id evm_hash s))
              (insert (src_id, (nonce, call))
                (with_vote who true (so_far c now nonce src_id call r_id evm_hash s)) s.votes),
        ))

  finalize_execution-IsExecuted :
      (whos : List ℕ) (v : ProposalVotes) (sb s s1 : State Rest)
      → LeavesVotes c call
      → Works sb
      → s1.rest ≡ sb.rest
      → get (src_id, (nonce, call)) s1.votes ≡ some v
      → v.status ≡ approved
      → v.votes_for ≡ whos
      → IsExecuted whos sb (after s (finalize_execution c src_id nonce call s1))
  unfolding finalize_execution
  finalize_execution-IsExecuted whos v sb s s1 quiet works same found agreed fors =
      let s0 = deposit_event (Event.proposal_approved src_id nonce) s1 in
      let (s', done) = works s0 same in
      let kept = quiet s0 s' done in
      rw done ((v, rw kept.0 found, agreed, fors), s0, s', same, done, refl)

  -- The vote that reaches the threshold approves the proposal, and the call is dispatched.
  acknowledge-approved :
      (who : ℕ) (whos : List ℕ) (sb s : State Rest)
      → LeavesVotes c call
      → Works sb
      → s.rest ≡ sb.rest
      → Ready c now nonce src_id call r_id evm_hash whos s
      → is_relayer c who s ≡ true
      → contains who whos ≡ false
      → s.relayer_threshold ≤ length whos + 1
      → IsExecuted
          (whos ++ (who ∷ []))
          sb
          (after s (apply c now (acknowledgement c now nonce src_id call r_id evm_hash who).1 s))
  unfolding apply
  acknowledge-approved who whos sb s quiet works same ready relayer new enough =
      let v = with_vote who true (so_far c now nonce src_id call r_id evm_hash s) in
      rw
        (
          acknowledge-ok c now nonce src_id call r_id evm_hash who whos s ready relayer new,
          enough-try_to_complete c now nonce src_id call r_id evm_hash who whos s.relayer_threshold
              s.relayer_count (so_far c now nonce src_id call r_id evm_hash s) ready.in_favour
              enough,
        )
        (finalize_execution-IsExecuted (whos ++ (who ∷ [])) (record v { status = approved }) sb s _
          quiet works same
          (get-insert_self (src_id, (nonce, call)) (record v { status = approved })
            (insert (src_id, (nonce, call)) v s.votes))
          refl (ap (λ l. l ++ (who ∷ [])) ready.in_favour))

  -- What the relayers in `whos` are, beside those in `before` who have voted.
  abbrev AreNew : List ℕ → List ℕ → State Rest → Type 0
  AreNew [] before s = Unit
  AreNew (who ∷ whos) before s =
      (is_relayer c who s ≡ true)
      × (contains who before ≡ false)
      × (contains who whos ≡ false)
      × AreNew whos before s

  AreNew-append :
      (whos before : List ℕ) (x : ℕ) (s s' : State Rest)
      → AreNew whos before s
      → contains x whos ≡ false
      → Kept s s'
      → AreNew whos (before ++ (x ∷ [])) s'
  unfolding contains
  AreNew-append [] before x s s' h n k = tt
  AreNew-append (who ∷ whos) before x s s' h n k =
      ground (arith, contains-append who x before, AreNew-append whos before x s s')

  votes-IsExecuted :
      (whos before : List ℕ) (who : ℕ) (sb s : State Rest)
      → LeavesVotes c call
      → Works sb
      → s.rest ≡ sb.rest
      → Ready c now nonce src_id call r_id evm_hash before s
      → AreNew (who ∷ whos) before s
      → s.relayer_threshold ≡ length before + (1 + length whos)
      → IsExecuted
          (before ++ (who ∷ whos))
          sb
          (run c (map (acknowledgement c now nonce src_id call r_id evm_hash) (who ∷ whos)) s)
  unfolding run
  votes-IsExecuted [] before who sb s quiet works same ready (relayer, new, distinct, news) enough =
      acknowledge-approved who before sb s quiet works same ready relayer new (omega arith)
  votes-IsExecuted (x ∷ whos) before who sb s quiet works same ready (relayer, new, distinct, news)
        enough =
      let s' =
        after s (apply c now (acknowledgement c now nonce src_id call r_id evm_hash who).1 s) in
      let (ready', kept, rest) = acknowledge-Ready who before s ready relayer new (omega arith) in
      rw (← append-snoc before who (x ∷ whos)) (
        votes-IsExecuted whos (before ++ (who ∷ [])) x sb s' quiet works (rw rest same) ready'
          (AreNew-append (x ∷ whos) before who s s' news distinct kept)
          (rw (kept.2, length-append before (who ∷ [])) (omega arith)))

  HasNoRepeats-AreNew :
      (whos : List ℕ) (s : State Rest) → AreRelayers c whos s → HasNoRepeats whos → AreNew whos [] s
  unfolding contains
  HasNoRepeats-AreNew [] s r n = tt
  HasNoRepeats-AreNew (who ∷ whos) s (relayer, rs) (first, ns) =
      (relayer, refl, first, HasNoRepeats-AreNew whos s rs ns)

  -- When as many different relayers as the threshold asks for acknowledge a new proposal in one block,
  -- it is approved by exactly those, and its call is dispatched by the bridge's account on the rest of
  -- the chain as it was: the state after is what that dispatch leaves, with one event more. The
  -- conditions: the threshold is above zero, the source chain is whitelisted, the resource is known,
  -- the lifetime is positive and does not take the block number past `u32`, and this call succeeds on
  -- that rest of the chain and leaves the votes and the relayers alone.
  pub run-IsExecuted :
      (whos : List ℕ) (s : State Rest)
      → LeavesVotes c call
      → Works s
      → get (src_id, (nonce, call)) s.votes ≡ none
      → chain_whitelisted c src_id s ≡ true
      → resource_exists c r_id s ≡ true
      → 0 < c.proposal_lifetime
      → now + c.proposal_lifetime < u32_mod
      → AreRelayers c whos s
      → HasNoRepeats whos
      → 0 < s.relayer_threshold
      → length whos ≡ s.relayer_threshold
      → IsExecuted whos s
          (run c (map (acknowledgement c now nonce src_id call r_id evm_hash) whos) s)
  run-IsExecuted [] s quiet works fresh listed known long fits rs ns pos enough =
      absurd (omega arith)
  run-IsExecuted (who ∷ whos) s quiet works fresh listed known long fits rs ns pos enough =
      votes-IsExecuted whos [] who s s quiet works refl
        (record {
          listed = listed;
          known = known;
          in_favour = rw fresh refl;
          against = rw fresh refl;
          undecided = rw fresh refl;
          in_time = rw fresh (omega arith);
        })
        (HasNoRepeats-AreNew (who ∷ whos) s rs ns) (omega arith)
