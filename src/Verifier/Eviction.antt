-- ===== src/Verifier/Eviction.antt =====
-- The states of a dominator: eviction is final.
use fusotao.Prelude.{
  ℕ, ◌+◌, ◌-◌, ◌≡◌, ◌%◌, refl, ◌==◌, arith, Bool-cases, Option-cases, inl, inr, some, none, nat_eq,
  List, [], ◌∷◌, pair_eq, u128_mod, if◌then◌else◌,
}
use fusotao.Support.Storage.{get, insert, get-insert}
use fusotao.Support.XToken.{Bytes}
use fusotao.Support.Dispatch.{
  Result, ok, err, Result-cases, Origin, root, unsigned, signed, ◌>>=◌, ensure_signed,
}
use fusotao.Support.Constants.{dominator_evicted, dominator_inactive}
use fusotao.Verifier.Types.{Dominator, State, Config}
use fusotao.Verifier.Custody.{
  authorize_to, revoke_from, authorize_call, revoke_call, revoke_with_callback_call,
}
use fusotao.Verifier.Staking.{
  grow_staking, stake_on, status_of, shrink_staking, unstake_from, claim_from, stake, unstake,
  claim_shares,
}
use fusotao.Verifier.Dominators.{
  new_dominator, register, evict, launch, dominator_set_pubkey, dominator_set_rpc_endpoint,
  on_initialize, close_seasons, drained, due, unlock_all,
}
use fusotao.Verifier.Untouched.{
  authorize_to-dominators, revoke_from-dominators, grow_staking-dominators,
  shrink_staking-dominators, claim_from-dominators, unlock_all-dominators,
}
use fusotao.Verifier.History.{
  Call, registers, evicts, launches, sets_pubkey, sets_rpc_endpoint, stakes, unstakes, claims,
  authorizes, revokes, revokes_with_callback, opens_block, after, step, run,
}

-- The dominator stands in the books as evicted.
abbrev pub IsEvicted : {Store : Type 0} → ℕ → State Store → Type 0
IsEvicted id s = (d : Dominator) × (get id s.dominators ≡ some d) × (d.status ≡ dominator_evicted)

module _ (c : Config) where
  open c use {asset}

  same-IsEvicted :
      (id : ℕ) (s s' : State asset.Store)
      → s'.dominators ≡ s.dominators
      → IsEvicted id s
      → IsEvicted id s'
  same-IsEvicted id s s' e (d, found, status) = (d, rw e found, status)

  -- Writing a dominator that is another one, or that is evicted still.
  write-IsEvicted :
      (id dex : ℕ) (d' : Dominator) (s s' : State asset.Store)
      → s'.dominators ≡ insert dex d' s.dominators
      → (dex ≡ id → d'.status ≡ dominator_evicted)
      → IsEvicted id s
      → IsEvicted id s'
  write-IsEvicted id dex d' s s' e keeps (d, found, status) = elim (Bool-cases (dex == id)) [
    | inl same ↦ (d', rw (e, get-insert dex id d' s.dominators, same) refl, keeps (ground arith))
    | inr other ↦ (d, rw (e, get-insert dex id d' s.dominators, other) found, status)
  ]

  stake_on-IsEvicted :
      (id now staker dex amount : ℕ) (s s' : State asset.Store)
      → stake_on c now staker dex amount s ≡ ok s'
      → IsEvicted id s
      → IsEvicted id s'
  unfolding stake_on
  stake_on-IsEvicted id now staker dex amount s s' h (d, found, status) =
      elim (Option-cases (get dex s.dominators)) [
        | inl missing ↦ ground arith
        | inr (dominator, known) ↦
            elim (Result-cases (grow_staking c now staker dex amount dominator.start_from s)) [
              | inl (e, failed) ↦ ground arith
              | inr (s₁, grown) ↦
                  let kept =
                    grow_staking-dominators c now staker dex amount dominator.start_from s s₁
                      grown in
                  let staked = (dominator.staked + amount) % u128_mod in
                  let d' : Dominator = record dominator {
                    staked = staked;
                    status = status_of c staked;
                  } in
                  write-IsEvicted id dex d' s s' (ground (arith, kept)) (λ p. ground arith)
                    (d, found, status)
            ]
      ]

  unstake_from-IsEvicted :
      (id now staker dex amount : ℕ) (s s' : State asset.Store)
      → unstake_from c now staker dex amount s ≡ ok s'
      → IsEvicted id s
      → IsEvicted id s'
  unfolding unstake_from
  unstake_from-IsEvicted id now staker dex amount s s' h (d, found, status) =
      elim (Option-cases (get dex s.dominators)) [
        | inl missing ↦ ground arith
        | inr (dominator, known) ↦
            elim (Result-cases (shrink_staking c now staker dex amount dominator.start_from s)) [
              | inl (e, failed) ↦ ground arith
              | inr (s₁, shrunk) ↦
                  let kept =
                    shrink_staking-dominators c now staker dex amount dominator.start_from s s₁
                      shrunk in
                  let staked = dominator.staked - amount in
                  let status' =
                    if dominator.status == dominator_evicted
                    then dominator.status
                    else status_of c staked in
                  let d' : Dominator = record dominator { staked = staked; status = status' } in
                  write-IsEvicted id dex d' s s' (ground (arith, kept)) (λ p. ground arith)
                    (d, found, status)
            ]
      ]

  register-IsEvicted :
      (id now : ℕ) (origin : Origin) (name : Bytes) (s s' : State asset.Store)
      → register c now origin name s ≡ ok s'
      → IsEvicted id s
      → IsEvicted id s'
  unfolding register
  register-IsEvicted id now (signed who) name s s' h (d, found, status) =
      elim (Bool-cases (who == id)) [
        | inl same ↦ ground arith
        | inr other ↦
            write-IsEvicted id who (new_dominator c now name) s s' (ground arith)
              (λ p. ground arith) (d, found, status)
      ]
  register-IsEvicted id now root name s s' h b = ground arith
  register-IsEvicted id now unsigned name s s' h b = ground arith

  evict-IsEvicted :
      (id : ℕ) (origin : Origin) (who : ℕ) (s s' : State asset.Store)
      → evict c origin who s ≡ ok s'
      → IsEvicted id s
      → IsEvicted id s'
  unfolding evict
  evict-IsEvicted id origin who s s' h b = elim (Result-cases (c.lookup who)) [
    | inl (e, failed) ↦ ground arith
    | inr (dex, known) ↦ elim (Option-cases (get dex s.dominators)) [
      | inl missing ↦ ground arith
      | inr (d, found) ↦
          write-IsEvicted id dex (record d { status = dominator_evicted }) s s' (ground arith)
            (λ p. refl) b
    ]
  ]

  launch-IsEvicted :
      (id : ℕ) (origin : Origin) (who : ℕ) (s s' : State asset.Store)
      → launch c origin who s ≡ ok s'
      → IsEvicted id s
      → IsEvicted id s'
  unfolding launch
  launch-IsEvicted id origin who s s' h (d, found, status) = elim (Result-cases (c.lookup who)) [
    | inl (e, failed) ↦ ground arith
    | inr (dex, known) ↦ elim (Option-cases (get dex s.dominators)) [
      | inl missing ↦ ground arith
      | inr (d₀, found₀) ↦
          write-IsEvicted id dex (record d₀ { status = dominator_inactive }) s s' (ground arith)
            (λ p. ground arith) (d, found, status)
    ]
  ]

  after-IsEvicted :
      (id : ℕ) (s : State asset.Store) (r : Result (State asset.Store))
      → IsEvicted id s
      → ((s' : State asset.Store) → r ≡ ok s' → IsEvicted id s')
      → IsEvicted id (after s r)
  after-IsEvicted id s (ok s') b h = h s' refl
  after-IsEvicted id s (err e) b h = b

  -- A call of a signed account on a dominator.
  called-IsEvicted :
      (id who : ℕ) (origin : Origin) (f : ℕ → ℕ → Result (State asset.Store))
      (s : State asset.Store)
      → IsEvicted id s
      → ((w dex : ℕ) (s' : State asset.Store) → f w dex ≡ ok s' → IsEvicted id s')
      → IsEvicted id (after s (ensure_signed origin >>= λ w. c.lookup who >>= f w))
  called-IsEvicted id who root f s b k = b
  called-IsEvicted id who unsigned f s b k = b
  called-IsEvicted id who (signed w) f s b k = elim (Result-cases (c.lookup who)) [
    | inl (e, failed) ↦ rw failed b
    | inr (dex, known) ↦ rw known (after-IsEvicted id s (f w dex) b (k w dex))
  ]

  step-IsEvicted :
      (id now : ℕ) (call : Call) (s : State asset.Store)
      → IsEvicted id s
      → IsEvicted id (step c now call s)
  unfolding step stake unstake claim_shares authorize_call revoke_call revoke_with_callback_call
      dominator_set_pubkey dominator_set_rpc_endpoint on_initialize
  step-IsEvicted id now (registers origin name) s b =
      after-IsEvicted id s (register c now origin name s) b
        λ s' h. register-IsEvicted id now origin name s s' h b
  step-IsEvicted id now (evicts origin who) s b =
      after-IsEvicted id s (evict c origin who s) b λ s' h. evict-IsEvicted id origin who s s' h b
  step-IsEvicted id now (launches origin who) s b =
      after-IsEvicted id s (launch c origin who s) b λ s' h. launch-IsEvicted id origin who s s' h b
  step-IsEvicted id now (sets_pubkey origin key) s b =
      after-IsEvicted id s (dominator_set_pubkey c origin key s) b
        λ s' h. same-IsEvicted id s s' (ground arith) b
  step-IsEvicted id now (sets_rpc_endpoint origin url) s b =
      after-IsEvicted id s (dominator_set_rpc_endpoint c origin url s) b
        λ s' h. same-IsEvicted id s s' (ground arith) b
  step-IsEvicted id now (stakes origin who amount) s b =
      called-IsEvicted id who origin (λ w dex. stake_on c now w dex amount s) s b
        λ w dex s' h. stake_on-IsEvicted id now w dex amount s s' h b
  step-IsEvicted id now (unstakes origin who amount) s b =
      called-IsEvicted id who origin (λ w dex. unstake_from c now w dex amount s) s b
        λ w dex s' h. unstake_from-IsEvicted id now w dex amount s s' h b
  step-IsEvicted id now (claims origin who) s b =
      called-IsEvicted id who origin (λ w dex. claim_from c now w dex s) s b
        λ w dex s' h. same-IsEvicted id s s' (claim_from-dominators c now w dex s s' h) b
  step-IsEvicted id now (authorizes origin who token amount) s b =
      called-IsEvicted id who origin (λ w dex. authorize_to c now w dex token amount s) s b
        λ w dex s' h.
          same-IsEvicted id s s' (authorize_to-dominators c now w dex token amount s s' h) b
  step-IsEvicted id now (revokes origin who token amount) s b =
      called-IsEvicted id who origin (λ w dex. revoke_from c now w dex token (some amount) none s) s
        b
        λ w dex s' h.
          same-IsEvicted id s s'
            (revoke_from-dominators c now w dex token (some amount) none s s' h) b
  step-IsEvicted id now (revokes_with_callback origin who token amount cb) s b =
      called-IsEvicted id who origin
        (λ w dex. revoke_from c now w dex token (some amount) (some cb) s) s b
        λ w dex s' h.
          same-IsEvicted id s s'
            (revoke_from-dominators c now w dex token (some amount) (some cb) s s' h) b
  step-IsEvicted id now opens_block s b =
      elim (Bool-cases (now % c.dominator_check_grace_period == 0)) [
        | inr between ↦ rw (on_initialize, between) b
        | inl check ↦
            let s₁ : State asset.Store = record s {
              bonuses = close_seasons c now s.dominators s.bonuses;
              pending_unstakings = drained c now s.pending_unstakings;
            } in
            rw (on_initialize, check)
              (same-IsEvicted id s (unlock_all c (due c now s.pending_unstakings) s₁)
                (unlock_all-dominators c (due c now s.pending_unstakings) s₁) b)
      ]

  -- An evicted dominator stays evicted, whatever of these calls follow, and in whatever blocks.
  pub run-IsEvicted :
      (id : ℕ) (calls : List (ℕ × Call)) (s : State asset.Store)
      → IsEvicted id s
      → IsEvicted id (run c calls s)
  unfolding run
  run-IsEvicted id [] s b = b
  run-IsEvicted id ((now, call) ∷ calls) s b =
      run-IsEvicted id calls (step c now call s) (step-IsEvicted id now call s b)
