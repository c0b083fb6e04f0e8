-- ===== src/Verifier/History.antt =====
-- Histories of calls on pallets/verifier, failed ones included, with the block each runs in.
use fusotao.Prelude.{
  ℕ, ◌≡◌, ◌%◌, refl, some, none, List, [], ◌∷◌, arith, ◌==◌, Bool-cases, inl, inr, nat_eq, pair_eq,
}
use fusotao.Support.Dispatch.{
  Result, ok, err, ensure_signed, ◌>>=◌, Origin, root, unsigned, signed, Result-cases,
}
use fusotao.Support.XToken.{Bytes}
use fusotao.Support.Asset.{ReserveLaws}
use fusotao.Support.Constants.{reserve_for_pending_unstake}
use fusotao.Verifier.Types.{State, Config}
use fusotao.Verifier.Reserves.{unreserve}
use fusotao.Verifier.Custody.{
  authorize_to, revoke_from, authorize_call, revoke_call, revoke_with_callback_call,
}
use fusotao.Verifier.Staking.{stake_on, unstake_from, claim_from, stake, unstake, claim_shares}
use fusotao.Verifier.Dominators.{
  register, evict, launch, dominator_set_pubkey, dominator_set_rpc_endpoint, on_initialize, unlock,
  unlock_all, due, drained, close_seasons,
}
use fusotao.Verifier.Follows.{Follows, Follows-trans, aside-Follows, unreserve-Follows}
use fusotao.Verifier.Follows.Custody.{authorize_to-Follows, revoke_from-Follows}
use fusotao.Verifier.Follows.Staking.{stake_on-Follows, unstake_from-Follows, claim_from-Follows}

-- The dispatchables, and the hook that opens a block.
pub data Call : Type 0 where
  registers : Origin → Bytes → Call
  evicts launches : Origin → ℕ → Call
  sets_pubkey sets_rpc_endpoint : Origin → Bytes → Call
  stakes unstakes : Origin → ℕ → ℕ → Call
  claims : Origin → ℕ → Call
  authorizes revokes : Origin → ℕ → ℕ → ℕ → Call
  revokes_with_callback : Origin → ℕ → ℕ → ℕ → ℕ → Call
  opens_block : Call

-- The state that a call leaves: a failed one is rolled back.
abbrev pub after : {S : Type 0} → S → Result S → S
after s (ok s') = s'
after s (err e) = s

module _ (c : Config) where
  open c use {asset}

  unfoldable pub step : ℕ → Call → State asset.Store → State asset.Store
  step now (registers origin name) s = after s (register c now origin name s)
  step now (evicts origin id) s = after s (evict c origin id s)
  step now (launches origin id) s = after s (launch c origin id s)
  step now (sets_pubkey origin key) s = after s (dominator_set_pubkey c origin key s)
  step now (sets_rpc_endpoint origin url) s = after s (dominator_set_rpc_endpoint c origin url s)
  step now (stakes origin id amount) s = after s (stake c now origin id amount s)
  step now (unstakes origin id amount) s = after s (unstake c now origin id amount s)
  step now (claims origin id) s = after s (claim_shares c now origin id s)
  step now (authorizes origin id token amount) s =
      after s (authorize_call c now origin id token amount s)
  step now (revokes origin id token amount) s = after s (revoke_call c now origin id token amount s)
  step now (revokes_with_callback origin id token amount callback) s =
      after s (revoke_with_callback_call c now origin id token amount callback s)
  step now opens_block s = on_initialize c now s

  unfoldable pub run : List (ℕ × Call) → State asset.Store → State asset.Store
  run [] s = s
  run ((now, call) ∷ calls) s = run calls (step now call s)

module _ (c : Config) (laws : ReserveLaws c.asset) where
  open c use {asset}
  open laws use {IsValid}

  after-Follows :
      (s : State asset.Store) (r : Result (State asset.Store))
      → IsValid s.assets
      → ((s' : State asset.Store) → r ≡ ok s' → Follows c laws s s')
      → Follows c laws s (after s r)
  after-Follows s (ok s') v h = h s' refl
  after-Follows s (err e) v h = aside-Follows c laws s s refl refl v

  unlock-Follows :
      (staker amount : ℕ) (s : State asset.Store)
      → IsValid s.assets
      → Follows c laws s (unlock c staker amount s)
  unfolding unlock
  unlock-Follows staker amount s v =
      elim (Result-cases (
        unreserve c reserve_for_pending_unstake staker asset.native_token_id amount c.system_account
          s)) [
            | inl (e, failed) ↦ rw (unlock, failed) (aside-Follows c laws s s refl refl v)
            | inr (s₁, freed) ↦
                let f =
                  unreserve-Follows c laws reserve_for_pending_unstake staker asset.native_token_id
                    amount c.system_account s s₁ freed v in
                rw (unlock, freed)
                  (Follows-trans c laws s s₁ _ f (aside-Follows c laws s₁ _ refl refl f.valid))
          ]

  unlock_all-Follows :
      (due : List (ℕ × ℕ)) (s : State asset.Store)
      → IsValid s.assets
      → Follows c laws s (unlock_all c due s)
  unfolding unlock_all
  unlock_all-Follows [] s v = aside-Follows c laws s s refl refl v
  unlock_all-Follows ((staker, amount) ∷ rest) s v =
      let f = unlock-Follows staker amount s v in
      Follows-trans c laws s (unlock c staker amount s) _ f
        (unlock_all-Follows rest (unlock c staker amount s) f.valid)

  on_initialize-Follows :
      (now : ℕ) (s : State asset.Store)
      → IsValid s.assets
      → Follows c laws s (on_initialize c now s)
  unfolding on_initialize
  on_initialize-Follows now s v = elim (Bool-cases (now % c.dominator_check_grace_period == 0)) [
    | inr between ↦ rw (on_initialize, between) (aside-Follows c laws s s refl refl v)
    | inl check ↦
        let s₁ : State asset.Store = record s {
          bonuses = close_seasons c now s.dominators s.bonuses;
          pending_unstakings = drained c now s.pending_unstakings;
        } in
        rw (on_initialize, check)
          (Follows-trans c laws s s₁ _ (aside-Follows c laws s s₁ refl refl v)
            (unlock_all-Follows (due c now s.pending_unstakings) s₁ v))
  ]

  signed-Follows :
      (origin : Origin) (f : ℕ → Result (State asset.Store)) (s s' : State asset.Store)
      → (ensure_signed origin >>= f) ≡ ok s'
      → ((who : ℕ) → f who ≡ ok s' → Follows c laws s s')
      → Follows c laws s s'
  signed-Follows root f s s' h k = ground arith
  signed-Follows unsigned f s s' h k = ground arith
  signed-Follows (signed who) f s s' h k = k who h

  lookup-Follows :
      (id : ℕ) (f : ℕ → Result (State asset.Store)) (s s' : State asset.Store)
      → (c.lookup id >>= f) ≡ ok s'
      → ((dex : ℕ) → f dex ≡ ok s' → Follows c laws s s')
      → Follows c laws s s'
  lookup-Follows id f s s' h k = elim (Result-cases (c.lookup id)) [
    | inl (e, failed) ↦ ground arith
    | inr (dex, known) ↦ k dex (ground arith)
  ]

  -- A call of a signed account on a dominator.
  called-Follows :
      (origin : Origin) (id : ℕ) (f : ℕ → ℕ → Result (State asset.Store)) (s s' : State asset.Store)
      → (ensure_signed origin >>= λ who. c.lookup id >>= f who) ≡ ok s'
      → ((who dex : ℕ) → f who dex ≡ ok s' → Follows c laws s s')
      → Follows c laws s s'
  called-Follows origin id f s s' h k =
      signed-Follows origin (λ who. c.lookup id >>= f who) s s' h
        (λ who h'. lookup-Follows id (f who) s s' h' (k who))

  step-Follows :
      (now : ℕ) (call : Call) (s : State asset.Store)
      → IsValid s.assets
      → Follows c laws s (step c now call s)
  unfolding step stake unstake claim_shares authorize_call revoke_call revoke_with_callback_call
      register evict launch dominator_set_pubkey dominator_set_rpc_endpoint
  step-Follows now (registers origin name) s v =
      after-Follows s (register c now origin name s) v
        λ s' h. aside-Follows c laws s s' (ground arith) (ground arith) v
  step-Follows now (evicts origin id) s v =
      after-Follows s (evict c origin id s) v
        λ s' h. aside-Follows c laws s s' (ground arith) (ground arith) v
  step-Follows now (launches origin id) s v =
      after-Follows s (launch c origin id s) v
        λ s' h. aside-Follows c laws s s' (ground arith) (ground arith) v
  step-Follows now (sets_pubkey origin key) s v =
      after-Follows s (dominator_set_pubkey c origin key s) v
        λ s' h. aside-Follows c laws s s' (ground arith) (ground arith) v
  step-Follows now (sets_rpc_endpoint origin url) s v =
      after-Follows s (dominator_set_rpc_endpoint c origin url s) v
        λ s' h. aside-Follows c laws s s' (ground arith) (ground arith) v
  step-Follows now (stakes origin id amount) s v = after-Follows s _ v λ s' h.
      called-Follows origin id (λ who dex. stake_on c now who dex amount s) s s' h
        λ who dex h'. stake_on-Follows c laws now who dex amount s s' h' v
  step-Follows now (unstakes origin id amount) s v = after-Follows s _ v λ s' h.
      called-Follows origin id (λ who dex. unstake_from c now who dex amount s) s s' h
        λ who dex h'. unstake_from-Follows c laws now who dex amount s s' h' v
  step-Follows now (claims origin id) s v = after-Follows s _ v λ s' h.
      called-Follows origin id (λ who dex. claim_from c now who dex s) s s' h
        λ who dex h'. claim_from-Follows c laws now who dex s s' h' v
  step-Follows now (authorizes origin id token amount) s v = after-Follows s _ v λ s' h.
      called-Follows origin id (λ who dex. authorize_to c now who dex token amount s) s s' h
        λ who dex h'. authorize_to-Follows c laws now who dex token amount s s' h' v
  step-Follows now (revokes origin id token amount) s v = after-Follows s _ v λ s' h.
      called-Follows origin id (λ who dex. revoke_from c now who dex token (some amount) none s) s
        s' h λ who dex h'. revoke_from-Follows c laws now who dex token (some amount) none s s' h' v
  step-Follows now (revokes_with_callback origin id token amount callback) s v =
      after-Follows s _ v λ s' h.
        called-Follows origin id
          (λ who dex. revoke_from c now who dex token (some amount) (some callback) s) s s' h
          λ who dex h'.
            revoke_from-Follows c laws now who dex token (some amount) (some callback) s s' h' v
  step-Follows now opens_block s v = on_initialize-Follows now s v

  -- Over any history of calls from a valid store, failed calls included, the store stays valid, and
  -- each account's reserved balance in each token moves by just as much as what `Reserves` sets aside
  -- for it.
  pub run-Follows :
      (calls : List (ℕ × Call)) (s : State asset.Store)
      → IsValid s.assets
      → Follows c laws s (run c calls s)
  unfolding run
  run-Follows [] s v = aside-Follows c laws s s refl refl v
  run-Follows ((now, call) ∷ calls) s v =
      let f = step-Follows now call s v in
      Follows-trans c laws s (step c now call s) _ f (run-Follows calls (step c now call s) f.valid)
