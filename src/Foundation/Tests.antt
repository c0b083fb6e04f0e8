-- ===== src/Foundation/Tests.antt =====
-- The theorems on locked funds at a concrete state.
use fusotao.Prelude.{
  ℕ, ◌+◌, ◌-◌, ◌*◌, ◌≡◌, refl, false, none, some, [], ◌∷◌, arith, ◌==◌, if◌then◌else◌, nat_eq,
  pair_eq, bytes_eq,
}
use fusotao.Support.Storage.{get, insert, IsMap}
use fusotao.Support.Dispatch.{DispatchError, ok, err, signed}
use fusotao.Foundation.Vault.{FoundationData, State, Config, put_into_vault, unlock_fund}
use fusotao.Foundation.Schedule.{tick, pays}
use fusotao.Foundation.Released.{ReservedView, released, IsFree}
use fusotao.Foundation.Release.{AllReady, unlock_fund-tick}
use fusotao.Foundation.Epochs.{unlock_from, unlock_from-released, unlock_fund-put_into_vault}

-- Balances that are what each account has reserved.
abbrev vault : Config
vault = record {
  Store = ℕ → ℕ;
  duration = 10;
  transfer = λ from to amount b. ok b;
  reserve = λ who amount b. ok (λ k. if who == k then b k + amount else b k);
  unreserve = λ who amount b. λ k. if who == k then b k - amount else b k;
  repatriate_reserved = λ from to amount b. λ k. if from == k then b k - amount else b k;
}

abbrev view : ReservedView vault
view = record {
  reserved = λ k b. b k;
  after_unreserve = λ account amount k b. refl;
  after_repatriate = λ account to amount k b apart. rw apart refl;
}

abbrev plan : FoundationData
plan = record {
  delay_durations = 3;
  interval_durations = 2;
  times = 2;
  amount = 100;
  first_amount = 50;
}

abbrev locked : State (ℕ → ℕ)
locked = record { foundation = (1, plan) ∷ []; approvals = []; events = []; balances = λ k. 250 }

once_each : IsMap locked.foundation
unfolding get
once_each = (refl, tt)

locked-AllReady : AllReady locked.foundation
unfolding get
locked-AllReady k f h = ground arith

nothing_held : IsFree vault 1 locked
unfolding get
nothing_held epoch = refl

one_fund : get 1 locked.foundation ≡ some plan
unfolding get
one_fund = refl

unlock_fund-tick_example :
    (s' : State (ℕ → ℕ)) × (unlock_fund vault 5 locked ≡ ok s')
    × ((k : ℕ) → get k s'.foundation ≡ tick 5 (get k locked.foundation))
    × ((k : ℕ) → IsFree vault k locked → IsFree vault k s')
    × ((k : ℕ)
        → IsFree vault k locked
        → (released k s'.events ≡ pays 5 (get k locked.foundation) + released k locked.events)
          × (s'.balances k ≡ 250 - pays 5 (get k locked.foundation)))
    × IsMap s'.foundation
    × AllReady s'.foundation
unlock_fund-tick_example = unlock_fund-tick vault view 5 locked once_each locked-AllReady

unlock_from-released_example :
    (s' : State (ℕ → ℕ)) × (unlock_from vault 6 2 locked ≡ ok s')
    × (get 1 s'.foundation ≡ none)
    × (released 1 s'.events ≡ 50 + 2 * 100 + released 1 locked.events)
    × (s'.balances 1 ≡ 250 - (50 + 2 * 100))
unlock_from-released_example =
    unlock_from-released vault view 6 2 1 plan locked once_each locked-AllReady one_fund
      nothing_held (ground arith) refl

abbrev never : FoundationData
never = record plan { interval_durations = 0 }

abbrev empty : State (ℕ → ℕ)
empty = record { foundation = []; approvals = []; events = []; balances = λ k. 0 }

abbrev trapped : State (ℕ → ℕ)
trapped = record empty {
  foundation = (1, never) ∷ [];
  balances = λ k. if 1 == k then 0 + 250 else 0;
}

put_fine : put_into_vault vault 0 (signed 7) 1 never false empty ≡ ok trapped
unfolding put_into_vault get insert
put_fine = refl

unlock_fund-put_into_vault_example : unlock_fund vault 3 trapped ≡ err DispatchError.panicked
unlock_fund-put_into_vault_example =
    unlock_fund-put_into_vault vault 0 3 (signed 7) 1 never false empty trapped put_fine refl
      (ground arith)
