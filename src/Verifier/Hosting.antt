-- ===== src/Verifier/Hosting.antt =====
-- Funds on their way to a dominator: `authorize_to`, and the proofs that accept or reject them.
use fusotao.Prelude.{
  ℕ, ◌+◌, ◌≡◌, ◌≢◌, refl, ◌==◌, arith, Bool-cases, Option-cases, inl, inr, some, none, nat_eq,
  pair_eq, List,
}
use fusotao.Support.Storage.{
  get, insert, remove, sum_by-put-put, IsMap, get-remove_self, get-insert_self, get-remove_ne,
}
use fusotao.Support.Dispatch.{ok, err, VerifierError, Result-cases}
use fusotao.Support.Asset.{ReserveLaws}
use fusotao.Support.Constants.{reserve_for_authorizing, reserve_for_authorizing_stash}
use fusotao.Verifier.Types.{ReserveKey, State, Config, fail, or_zero}
use fusotao.Verifier.Reserves.{reserve}
use fusotao.Verifier.Custody.{authorize_to}
use fusotao.Verifier.Leaf.{MerkleLeaf}
use fusotao.Verifier.Transfers.{verify_transfer_in}
use fusotao.Verifier.Update.{Outside, transfer_in_to, reject_in}
use fusotao.Verifier.Follows.{backs, set_aside, Follows-trans, aside-Follows}
use fusotao.Verifier.Follows.Custody.{authorize_to-Follows}

-- What waits in the stash for a dominator.
abbrev pub stash_key : ℕ → ℕ → ℕ → ReserveKey
stash_key who token dex = ((reserve_for_authorizing_stash, (who, token)), dex)

abbrev pub confirmed_key : ℕ → ℕ → ℕ → ReserveKey
confirmed_key who token dex = ((reserve_for_authorizing, (who, token)), dex)

module _ (c : Config) (x : Outside c) where
  open c use {asset}

  pub transfer_in_to-eq-ok :
      (dex user token amount : ℕ) (leaves : List MerkleLeaf) (s s' : State asset.Store)
      → transfer_in_to c x dex user token amount leaves s ≡ ok s'
      → s' ≡ record s {
        reserves =
            insert
              (confirmed_key user token dex)
              (or_zero (get (confirmed_key user token dex) s.reserves) + amount)
              (remove (stash_key user token dex) s.reserves);
        receipts = remove (dex, user) s.receipts;
      }
  unfolding transfer_in_to
  transfer_in_to-eq-ok dex user token amount leaves s s' h =
      elim (Option-cases (get (dex, user) s.receipts)) [
        | inl missing ↦ ground arith
        | inr (r, found) ↦ elim (Result-cases (verify_transfer_in c token amount user leaves)) [
          | inl (e, failed) ↦ ground arith
          | inr (u, shown) ↦
              let apart : stash_key user token dex ≢ confirmed_key user token dex =
                λ p. ground arith in
              ground (
                arith,
                get-remove_ne (stash_key user token dex) (confirmed_key user token dex) s.reserves
                    apart,
              )
        ]
      ]

  -- A transfer in that succeeds takes all of the stash out of what is set aside, and puts in the
  -- amount. The assets are not touched.
  pub transfer_in_to-set_aside :
      (dex user token amount : ℕ) (leaves : List MerkleLeaf) (s s' : State asset.Store)
      → transfer_in_to c x dex user token amount leaves s ≡ ok s'
      → (set_aside token user s' + or_zero (get (stash_key user token dex) s.reserves)
          ≡ set_aside token user s + amount)
        × (s'.assets ≡ s.assets)
  transfer_in_to-set_aside dex user token amount leaves s s' h =
      let e = transfer_in_to-eq-ok dex user token amount leaves s s' h in
      let stash = stash_key user token dex in
      let confirmed = confirmed_key user token dex in
      let grown = or_zero (get confirmed s.reserves) + amount in
      let apart : stash ≢ confirmed = λ p. ground arith in
      let moved =
        sum_by-put-put (backs token user) confirmed stash (some grown) none s.reserves apart in
      (ground (arith, e, moved), rw e refl)

  -- A receipt serves once, where no key stands twice in the receipts: in the state right after a
  -- transfer in, a second one for the same owner and dominator fails, whatever it names and whatever its
  -- leaves show.
  pub transfer_in_to-once :
      (dex user token amount token' amount' : ℕ) (leaves leaves' : List MerkleLeaf)
      (s s' : State asset.Store)
      → IsMap s.receipts
      → transfer_in_to c x dex user token amount leaves s ≡ ok s'
      → transfer_in_to c x dex user token' amount' leaves' s'
        ≡ err (fail VerifierError.receipt_not_exists)
  unfolding transfer_in_to
  transfer_in_to-once dex user token amount token' amount' leaves leaves' s s' keyed h =
      let e = transfer_in_to-eq-ok dex user token amount leaves s s' h in
      let gone : get (dex, user) s'.receipts ≡ none =
        rw e (get-remove_self (dex, user) s.receipts keyed) in
      ground (arith, gone)

  -- Rejecting a transfer in leaves the assets and every reserve, the stash included, as they were.
  pub reject_in-keeps :
      (dex user : ℕ) (s s' : State asset.Store)
      → reject_in c x dex user s ≡ ok s'
      → (s'.assets ≡ s.assets) × (s'.reserves ≡ s.reserves)
  unfolding reject_in
  reject_in-keeps dex user s s' h = elim (Option-cases (get (dex, user) s.receipts)) [
    | inl missing ↦ ground arith
    | inr (r, found) ↦ ground arith
  ]

  authorize_to-stash :
      (now user dex token amount : ℕ) (s s' : State asset.Store)
      → authorize_to c now user dex token amount s ≡ ok s'
      → or_zero (get (stash_key user token dex) s'.reserves)
        ≡ or_zero (get (stash_key user token dex) s.reserves) + amount
  unfolding authorize_to reserve
  authorize_to-stash now user dex token amount s s' h =
      let stash = stash_key user token dex in
      elim (Option-cases (get dex s.dominators)) [
        | inl missing ↦ ground arith
        | inr (dominator, found) ↦ elim (Bool-cases (amount == 0)) [
          | inl nothing ↦ ground arith
          | inr something ↦ elim (Result-cases (asset.reserve token user amount s.assets)) [
            | inl (e, failed) ↦ ground arith
            | inr (a, paid) ↦
                ground (
                  arith,
                  get-insert_self stash (or_zero (get stash s.reserves) + amount) s.reserves,
                )
          ]
        ]
      ]

  module _ (laws : ReserveLaws asset) where
    open laws use {IsValid}

    -- An authorization that the dominator accepts, from a valid store and with nothing in the stash
    -- before: the owner's reserved balance and what is set aside for it have grown by the same.
    pub authorize-transfer_in :
        (now user dex token amount : ℕ) (leaves : List MerkleLeaf) (s s₁ s₂ : State asset.Store)
        → IsValid s.assets
        → get (stash_key user token dex) s.reserves ≡ none
        → authorize_to c now user dex token amount s ≡ ok s₁
        → transfer_in_to c x dex user token amount leaves s₁ ≡ ok s₂
        → set_aside token user s₂ + asset.reserved_balance token user s.assets
          ≡ set_aside token user s + asset.reserved_balance token user s₂.assets
    authorize-transfer_in now user dex token amount leaves s s₁ s₂ v empty h h' =
        let f = authorize_to-Follows c laws now user dex token amount s s₁ h v in
        let (kept, same) = transfer_in_to-set_aside dex user token amount leaves s₁ s₂ h' in
        let stash = authorize_to-stash now user dex token amount s s₁ h in
        ground (arith, f.moved token user, kept, same, stash, empty)

    -- A rejected authorization strands its funds, from a valid store and with nothing in the stash
    -- before: when the owner authorizes again and the dominator accepts that, the reserved balance has
    -- grown by the first amount more than what is set aside.
    pub reject_in-strands :
        (now later user dex token first second : ℕ) (leaves : List MerkleLeaf)
        (s s₁ s₂ s₃ s₄ : State asset.Store)
        → IsValid s.assets
        → get (stash_key user token dex) s.reserves ≡ none
        → authorize_to c now user dex token first s ≡ ok s₁
        → reject_in c x dex user s₁ ≡ ok s₂
        → authorize_to c later user dex token second s₂ ≡ ok s₃
        → transfer_in_to c x dex user token second leaves s₃ ≡ ok s₄
        → set_aside token user s₄ + first + asset.reserved_balance token user s.assets
          ≡ set_aside token user s + asset.reserved_balance token user s₄.assets
    reject_in-strands now later user dex token first second leaves s s₁ s₂ s₃ s₄ v empty h h₁ h₂
          h₃ =
        let f = authorize_to-Follows c laws now user dex token first s s₁ h v in
        let (assets, reserves) = reject_in-keeps dex user s₁ s₂ h₁ in
        let g = aside-Follows c laws s₁ s₂ assets reserves f.valid in
        let k = authorize_to-Follows c laws later user dex token second s₂ s₃ h₂ g.valid in
        let (kept, same) = transfer_in_to-set_aside dex user token second leaves s₃ s₄ h₃ in
        let stash = authorize_to-stash now user dex token first s s₁ h in
        let stash' = authorize_to-stash later user dex token second s₂ s₃ h₂ in
        let held : or_zero (get (stash_key user token dex) s₃.reserves) ≡ first + second =
          ground (arith, stash, stash', reserves, empty) in
        let all = Follows-trans c laws s s₂ s₃ (Follows-trans c laws s s₁ s₂ f g) k in
        let reserved : asset.reserved_balance token user s₄.assets
            ≡ asset.reserved_balance token user s₃.assets =
          rw same refl in
        omega (arith, all.moved token user, kept, reserved, held)
