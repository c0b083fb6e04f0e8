-- ===== src/Token/History.antt =====
-- Histories of calls on pallets/token, failed ones included, and what they keep of the books.
use fusotao.Prelude.{
  ℕ, ◌+◌, ◌≤◌, ◌<◌, ◌≡◌, refl, Bool-cases, inl, inr, List, [], ◌∷◌, arith, length, u32_mod, ◌==◌,
}
use fusotao.Support.Dispatch.{Result, ok, err, Origin, Result-cases, root, unsigned, signed}
use fusotao.Support.XToken.{XToken, Bytes, symbol}
use fusotao.Support.Asset.{BalanceStatus}
use fusotao.Token.Types.{State, Event, deposit_event, Config}
use fusotao.Token.Accounts.{transfer_token, reserve, unreserve, repatriate_reserved}
use fusotao.Token.Supply.{do_mint, do_burn, create, issue, mark_stable, transfer, associate_token}
use fusotao.Token.Invariant.{IsBacked}
use fusotao.Token.Conservation.{
  Conserves, Conserves-IsBacked, transfer_token-Conserves, reserve-Conserves, unreserve-Conserves,
  repatriate_reserved-Conserves, native-Conserves, aside-Conserves, event-Conserves,
}
use fusotao.Token.Minting.{do_mint-eq-ok, do_burn-eq-ok, do_mint-IsBacked, do_burn-IsBacked}
use fusotao.Token.Listing.{mark_stable-IsBacked, create-IsBacked}

-- The dispatchables, and `transfer_token`, `reserve`, `unreserve`, `do_mint`, `do_burn` and
-- `repatriate_reserved`, which other pallets call. `try_mutate_account` and `try_mutate_issuance`, which
-- change what is held and the total apart, are not among them.
pub data Call : Type 0 where
  issues : Origin → XToken → Call
  marks_stable : Origin → ℕ → Call
  transfers : Origin → ℕ → ℕ → ℕ → Call
  associates : Origin → ℕ → Bytes → ℕ → Call
  moves : ℕ → ℕ → ℕ → ℕ → Call
  reserves unreserves mints burns : ℕ → ℕ → ℕ → Call
  repatriates : ℕ → ℕ → ℕ → ℕ → BalanceStatus → Call

-- The state that a call leaves: a failed one is rolled back.
abbrev pub after : {S : Type 0} → S → Result S → S
after s (ok s') = s'
after s (err e) = s

abbrev pub after_pair : {A S : Type 0} → S → Result (A × S) → S
after_pair s (ok r) = r.1
after_pair s (err e) = s

module _ (c : Config) where
  unfoldable pub step : Call → State c.Native → State c.Native
  step (issues origin info) s = after s (issue c origin info s)
  step (marks_stable origin id) s = after s (mark_stable c origin id s)
  step (transfers origin token target amount) s = after s (transfer c origin token target amount s)
  step (associates origin chain contract id) s =
      after s (associate_token c origin chain contract id s)
  step (moves from token amount to) s = after_pair s (transfer_token c from token amount to s)
  step (reserves token who value) s = after s (reserve c token who value s)
  step (unreserves token who value) s = after s (unreserve c token who value s)
  step (mints token who amount) s = after s (do_mint c token who amount s)
  step (burns token who amount) s = after_pair s (do_burn c token who amount s)
  step (repatriates token from to value status) s =
      after s (repatriate_reserved c token from to value status s)

  unfoldable pub run : List Call → State c.Native → State c.Native
  run [] s = s
  run (call ∷ calls) s = run calls (step call s)

  -- What one step keeps: the books, and at most one id is used up.
  abbrev Keeps : State c.Native → State c.Native → Type 0
  Keeps s s' = (s'.next_token_id ≤ s.next_token_id + 1) × IsBacked s'

  Conserves-Keeps : (s s' : State c.Native) → Conserves s s' → IsBacked s → Keeps s s'
  Conserves-Keeps s s' k b = (omega (arith, k.same_next), Conserves-IsBacked s s' k b)

  after-Keeps :
      (s : State c.Native) (r : Result (State c.Native))
      → IsBacked s
      → ((s' : State c.Native) → r ≡ ok s' → Keeps s s')
      → Keeps s (after s r)
  after-Keeps s (ok s') b h = h s' refl
  after-Keeps s (err e) b h = (omega arith, b)

  after_pair-Keeps :
      {A : Type 0} (s : State c.Native) (r : Result (A × State c.Native))
      → IsBacked s
      → ((a : A) (s' : State c.Native) → r ≡ ok (a, s') → Keeps s s')
      → Keeps s (after_pair s r)
  after_pair-Keeps s (ok (a, s')) b h = h a s' refl
  after_pair-Keeps s (err e) b h = (omega arith, b)

  do_mint-next :
      (token who amount : ℕ) (s s' : State c.Native)
      → do_mint c token who amount s ≡ ok s'
      → s'.next_token_id ≡ s.next_token_id
  unfolding do_mint
  do_mint-next token who amount s s' h = elim (Bool-cases (amount == 0)) [
    | inl none_asked ↦ ground arith
    | inr nonzero ↦
        let (_, _, _, _, _, _, _, e) = do_mint-eq-ok c token who amount s s' (ground arith) h in
        ground (arith, e)
  ]

  do_burn-next :
      (token who amount n : ℕ) (s s' : State c.Native)
      → do_burn c token who amount s ≡ ok (n, s')
      → s'.next_token_id ≡ s.next_token_id
  do_burn-next token who amount n s s' h =
      let (_, _, _, _, _, _, _, _, e) = do_burn-eq-ok c token who amount s _ h in ground (arith, e)

  issue-Keeps :
      (origin : Origin) (info : XToken) (s s' : State c.Native)
      → issue c origin info s ≡ ok s'
      → s.next_token_id + 1 < u32_mod
      → IsBacked s
      → Keeps s s'
  unfolding issue
  issue-Keeps (signed who) info s s' h room b =
      elim (Result-cases (c.burn_from who c.burn_ta_when_issue s.native)) [
        | inl (e, failed) ↦ ground arith
        | inr (n, paid) ↦ elim (Result-cases (create c info (record s { native = n }))) [
          | inl (e, failed) ↦ ground arith
          | inr ((id, s₁), made) ↦
              let b₀ = Conserves-IsBacked s _ (native-Conserves s n) b in
              let (next, b₁) =
                create-IsBacked c info id (record s { native = n }) s₁ made room b₀ in
              let e = Event.token_issued id (symbol info) in
              let told : s' ≡ deposit_event e s₁ = ground arith in
              rw told (omega arith, Conserves-IsBacked s₁ _ (event-Conserves s₁ e) b₁)
        ]
      ]
  issue-Keeps root info s s' h room b = ground arith
  issue-Keeps unsigned info s s' h room b = ground arith

  transfer-Conserves :
      (origin : Origin) (token target amount : ℕ) (s s' : State c.Native)
      → transfer c origin token target amount s ≡ ok s'
      → Conserves s s'
  unfolding transfer
  transfer-Conserves (signed who) token target amount s s' h =
      elim (Result-cases (c.lookup target)) [
        | inl (e, failed) ↦ ground arith
        | inr (to, known) ↦ elim (Result-cases (transfer_token c who token amount to s)) [
          | inl (e, failed) ↦ ground arith
          | inr ((n, s₁), moved) ↦
              let same : s' ≡ s₁ = ground arith in
              rw same (transfer_token-Conserves c who token amount to n s s₁ moved)
        ]
      ]
  transfer-Conserves root token target amount s s' h = ground arith
  transfer-Conserves unsigned token target amount s s' h = ground arith

  associate_token-Conserves :
      (origin : Origin) (chain id : ℕ) (name : Bytes) (s s' : State c.Native)
      → associate_token c origin chain name id s ≡ ok s'
      → Conserves s s'
  unfolding associate_token
  associate_token-Conserves origin chain id name s s' h =
      aside-Conserves s s' (ground arith) (ground arith) (ground arith)

  step-Keeps :
      (call : Call) (s : State c.Native)
      → s.next_token_id + 1 < u32_mod
      → IsBacked s
      → Keeps s (step call s)
  unfolding step
  step-Keeps (issues origin info) s room b =
      after-Keeps s _ b λ s' h. issue-Keeps origin info s s' h room b
  step-Keeps (marks_stable origin id) s room b =
      after-Keeps s _ b
        λ s' h. let (next, b') = mark_stable-IsBacked c origin id s s' h b in (omega arith, b')
  step-Keeps (transfers origin token target amount) s room b =
      after-Keeps s _ b
        λ s' h. Conserves-Keeps s s' (transfer-Conserves origin token target amount s s' h) b
  step-Keeps (associates origin chain contract id) s room b =
      after-Keeps s _ b
        λ s' h. Conserves-Keeps s s' (associate_token-Conserves origin chain id contract s s' h) b
  step-Keeps (moves from token amount to) s room b =
      after_pair-Keeps s _ b
        λ n s' h. Conserves-Keeps s s' (transfer_token-Conserves c from token amount to n s s' h) b
  step-Keeps (reserves token who value) s room b =
      after-Keeps s _ b λ s' h. Conserves-Keeps s s' (reserve-Conserves c token who value s s' h) b
  step-Keeps (unreserves token who value) s room b =
      after-Keeps s _ b
        λ s' h. Conserves-Keeps s s' (unreserve-Conserves c token who value s s' h) b
  step-Keeps (mints token who amount) s room b = after-Keeps s _ b λ s' h. (
    omega (arith, do_mint-next token who amount s s' h),
    do_mint-IsBacked c token who amount s s' h b,
  )
  step-Keeps (burns token who amount) s room b = after_pair-Keeps s _ b λ n s' h. (
    omega (arith, do_burn-next token who amount n s s' h),
    do_burn-IsBacked c token who amount n s s' h b,
  )
  step-Keeps (repatriates token from to value status) s room b = after-Keeps s _ b λ s' h.
      Conserves-Keeps s s' (repatriate_reserved-Conserves c token from to value status s s' h) b

  -- From books in order, any history of the calls of `Call`, failed ones included, leaves them in order,
  -- as long as ids last: the recorded total of each token is the sum of what accounts hold of it.
  pub run-IsBacked :
      (calls : List Call) (s : State c.Native)
      → s.next_token_id + length calls < u32_mod
      → IsBacked s
      → IsBacked (run calls s)
  unfolding run
  run-IsBacked [] s room b = b
  run-IsBacked (call ∷ calls) s room b =
      let (next, b') = step-Keeps call s (omega arith) b in
      run-IsBacked calls (step call s) (omega arith) b'
