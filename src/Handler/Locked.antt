-- ===== src/Handler/Locked.antt =====
-- What leaves the chain by pallets/chainbridge-handler is what the bridge announces.
use fusotao.Prelude.{
  ℕ, ◌+◌, ◌%◌, ◌<◌, ◌≡◌, ◌≢◌, inl, inr, ◌∷◌, arith, ◌==◌, if◌then◌else◌, nat_eq, pair_eq, bytes_eq,
  u64_mod, u128_mod,
}
use fusotao.Support.Storage.{get}
use fusotao.Support.Dispatch.{ok, Result-cases}
use fusotao.Support.XToken.{Bytes}
use fusotao.Support.Asset.{Asset}
use fusotao.Bridge.Types.{Event}
use fusotao.Bridge.Transfers.{or_zero, bump_nonce, transfer_with, transfer_fungible}
use fusotao.Handler.Types.{Config, State, calculate_bridging_fee}
use fusotao.Handler.Outgoing.{minus, do_lock}

-- A transfer of the native token between two accounts takes the amount from the one's free balance, adds
-- it to the other's, and leaves the rest.
abbrev pub TransfersAlone : Asset → Type 0
TransfersAlone a =
    (from to amount moved who : ℕ) (s s' : a.Store)
    → a.transfer_token from a.native_token_id amount to s ≡ ok (moved, s')
    → from ≢ to
    → a.free_balance a.native_token_id who s' + (if from == who then amount else 0)
      ≡ a.free_balance a.native_token_id who s + (if to == who then amount else 0)

module _ (c : Config) where
  pub transfer_fungible-announces :
      (dest_id : ℕ) (r_id to : Bytes) (amount : ℕ) (s s' : fusotao.Bridge.Types.State c.bridge.Rest)
      → transfer_fungible c.bridge dest_id r_id to amount s ≡ ok s'
      → (n : ℕ) × (s'.events ≡ Event.fungible_transfer dest_id n r_id amount to ∷ s.events)
  unfolding transfer_fungible transfer_with bump_nonce
  transfer_fungible-announces dest_id r_id to amount s s' h =
      ((or_zero (get dest_id s.chain_nonces) + 1) % u64_mod, ground arith)

module _ (c : Config) (transfers : TransfersAlone c.asset) where
  open c use {asset}

  abbrev free_of : ℕ → State c → ℕ
  free_of who s = asset.free_balance asset.native_token_id who s.assets

  -- The native token that leaves the chain is locked: of the amount, the sender pays the fee to the
  -- treasury and the rest to the bridge's account, the rest is above the fee, and the bridge announces
  -- exactly the rest. The conditions: the sender, the treasury and the bridge's account are three
  -- accounts, the amount and twice the fee fit `u128`, and a transfer moves its amount alone.
  pub do_lock-announced :
      (sender amount : ℕ) (r_id recipient : Bytes) (dest_id : ℕ) (s s' : State c)
      → do_lock c sender amount r_id recipient dest_id s ≡ ok s'
      → sender ≢ c.treasury_account
      → sender ≢ c.bridge.account_id
      → c.treasury_account ≢ c.bridge.account_id
      → amount < u128_mod
      → let fee = calculate_bridging_fee c dest_id asset.native_token_id s in
        fee + fee < u128_mod
        → (sent n : ℕ) × (sent + fee ≡ amount)
          × (fee < sent)
          × (free_of c.bridge.account_id s' ≡ free_of c.bridge.account_id s + sent)
          × (free_of c.treasury_account s' ≡ free_of c.treasury_account s + fee)
          × (free_of sender s' + amount ≡ free_of sender s)
          × (s'.chain.events
              ≡ Event.fungible_transfer dest_id n r_id sent recipient ∷ s.chain.events)
  unfolding do_lock
  do_lock-announced sender amount r_id recipient dest_id s s' h d1 d2 d3 fits small =
      let native = asset.native_token_id in
      let fee = calculate_bridging_fee c dest_id native s in
      let sent = minus amount fee in
      elim (Result-cases (asset.transfer_token sender native fee c.treasury_account s.assets)) [
        | inl (e, failed) ↦ absurd (ground arith)
        | inr ((p, a1), paid) ↦
            elim (Result-cases (asset.transfer_token sender native sent c.bridge.account_id a1)) [
              | inl (e, failed) ↦ absurd (ground arith)
              | inr ((l, a2), locked) ↦
                  elim (Result-cases
                    (transfer_fungible c.bridge dest_id r_id recipient sent s.chain)) [
                      | inl (e, failed) ↦ absurd (ground arith)
                      | inr (chain, announced) ↦
                          let (n, ev) =
                            transfer_fungible-announces c dest_id r_id recipient sent s.chain chain
                              announced in
                          let done : (s'.assets ≡ a2) × (s'.chain ≡ chain) = ground arith in
                          let above : fee + fee < amount = ground arith in
                          let rest : sent + fee ≡ amount = omega arith in
                          let b1 =
                            transfers sender c.treasury_account fee p c.bridge.account_id s.assets
                              a1 paid d1 in
                          let b2 =
                            transfers sender c.bridge.account_id sent l c.bridge.account_id a1 a2
                              locked d2 in
                          let t1 =
                            transfers sender c.treasury_account fee p c.treasury_account s.assets a1
                              paid d1 in
                          let t2 =
                            transfers sender c.bridge.account_id sent l c.treasury_account a1 a2
                              locked d2 in
                          let s1 =
                            transfers sender c.treasury_account fee p sender s.assets a1 paid d1 in
                          let s2 =
                            transfers sender c.bridge.account_id sent l sender a1 a2 locked d2 in
                          (
                            sent,
                            n,
                            rest,
                            omega (arith, rest, above),
                            rw done.0 (ground (arith, b1, b2)),
                            rw done.0 (ground (arith, t1, t2)),
                            rw done.0 (ground (arith, s1, s2, rest)),
                            rw done.1 ev,
                          )
                    ]
            ]
      ]
