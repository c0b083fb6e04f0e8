-- ===== src/Foundation/Released.antt =====
-- `release` of pallets/foundation/src/lib.rs: what it leaves of the funds, the events and the reserved
-- balances.
use fusotao.Prelude.{
  ℕ, ◌+◌, ◌-◌, ◌<◌, ◌≡◌, refl, inl, inr, false, none, List, [], ◌∷◌, arith, ◌==◌, if◌then◌else◌,
  Bool-cases, Option-cases, Eq, nat_eq, pair_eq, bytes_eq, u32_mod,
}
use fusotao.Support.Storage.{StorageMap, get, remove}
use fusotao.Foundation.Vault.{FoundationData, Event, State, Config, release}

-- A fund that the hook can work with: its interval and its count are above zero, and the count is `u32`.
pub record IsReady (f : FoundationData) : Type 0 where
  pub spaced : 0 < f.interval_durations
  pub left : 0 < f.times
  pub narrow : f.times < u32_mod

-- What the events say has been released to an account.
unfoldable pub released : ℕ → List Event → ℕ
released k [] = 0
released k (Event.pre_locked_fund_unlocked account amount ∷ es) =
    (if account == k then amount else 0) + released k es

get-remove-none :
    {K V : Type 0} ⦃e : Eq K⦄ (k j : K) (m : StorageMap K V)
    → get j m ≡ none
    → get j (remove k m) ≡ none
unfolding get remove
get-remove-none k j [] h = refl
get-remove-none ⦃e⦄ k j ((i, w) ∷ m) h = ground (arith, get-remove-none k j m, e.beq_iff i k)

-- How `unreserve` and `repatriate_reserved` of pallet_balances move reserved balances: the first frees
-- as much of the amount as is reserved, and the second, to the free balance of another account, takes
-- from its first account only.
pub record ReservedView (c : Config) : Type 0 where
  pub reserved : ℕ → c.Store → ℕ
  pub after_unreserve :
      (account amount k : ℕ) (b : c.Store)
      → reserved k (c.unreserve account amount b)
        ≡ (if account == k then reserved k b - amount else reserved k b)
  pub after_repatriate :
      (account to amount k : ℕ) (b : c.Store)
      → (account == k) ≡ false
      → reserved k (c.repatriate_reserved account to amount b) ≡ reserved k b

module _ (c : Config) where
  open c use {Store}

  -- Nothing of an account waits for an approval.
  abbrev pub IsFree : ℕ → State Store → Type 0
  IsFree k s = (epoch : ℕ) → get (k, epoch) s.approvals ≡ none

  pub release-foundation :
      (now account amount : ℕ) (s : State Store)
      → (release c now account amount s).foundation ≡ s.foundation
  unfolding release
  release-foundation now account amount s = elim (Option-cases (get (account, now) s.approvals)) [
    | inl free ↦ rw (release, free) refl
    | inr (who, held) ↦ rw (release, held) refl
  ]

  pub release-IsFree :
      (now account amount k : ℕ) (s : State Store)
      → IsFree k s
      → IsFree k (release c now account amount s)
  unfolding release
  release-IsFree now account amount k s h epoch =
      elim (Option-cases (get (account, now) s.approvals)) [
        | inl free ↦ rw (release, free) (h epoch)
        | inr (who, held) ↦
            rw (release, held) (get-remove-none (account, now) (k, epoch) s.approvals (h epoch))
      ]

  pub release-released :
      (now account amount k : ℕ) (s : State Store)
      → IsFree k s
      → released k (release c now account amount s).events
        ≡ (if account == k then amount else 0) + released k s.events
  unfolding release released
  release-released now account amount k s h = elim (Option-cases (get (account, now) s.approvals)) [
    | inl free ↦ rw (release, free) refl
    | inr (who, held) ↦ elim (Bool-cases (account == k)) [
      | inl same ↦
          let e : account ≡ k = ground arith in
          let held' = rw e at held in absurd (ground (arith, h now))
      | inr apart ↦ rw (release, held, apart) (ground arith)
    ]
  ]

  -- What the events say has been released has left the reserved balance, and nothing else has.
  pub release-reserved :
      (v : ReservedView c) (now account amount k : ℕ) (s : State Store)
      → IsFree k s
      → v.reserved k (release c now account amount s).balances
        ≡ v.reserved k s.balances - (if account == k then amount else 0)
  unfolding release
  release-reserved v now account amount k s h =
      elim (Option-cases (get (account, now) s.approvals)) [
        | inl free ↦
            rw (release, free) (ground (arith, v.after_unreserve account amount k s.balances))
        | inr (who, held) ↦ elim (Bool-cases (account == k)) [
          | inl same ↦
              let e : account ≡ k = ground arith in
              let held' = rw e at held in absurd (ground (arith, h now))
          | inr apart ↦
              rw (release, held, apart)
                (omega (arith, v.after_repatriate account who amount k s.balances apart))
        ]
      ]
