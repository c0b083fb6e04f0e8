-- ===== src/Foundation/Release.antt =====
-- `unlock_fund` of pallets/foundation/src/lib.rs on all funds, and epoch after epoch.
use fusotao.Prelude.{
  ℕ, ◌+◌, ◌-◌, ◌≡◌, refl, ◌≢◌, inl, inr, none, some, [], ◌∷◌, arith, ◌==◌, if◌then◌else◌,
  Bool-cases, Option-cases, nat_eq, pair_eq, bytes_eq,
}
use fusotao.Support.Storage.{StorageMap, get, IsMap}
use fusotao.Support.Dispatch.{ok}
use fusotao.Foundation.Vault.{FoundationData, State, Config, unlock_each, unlock_fund}
use fusotao.Foundation.Schedule.{tick, pays}
use fusotao.Foundation.Released.{IsReady, ReservedView, released, IsFree}
use fusotao.Foundation.Unlock.{Follows, unlock_one-Follows}

abbrev pub AllReady : StorageMap ℕ FoundationData → Type 0
AllReady m = (k : ℕ) (f : FoundationData) → get k m ≡ some f → IsReady f

tick-IsReady : (now : ℕ) (f g : FoundationData) → IsReady f → tick now (some f) ≡ some g → IsReady g
unfolding tick
tick-IsReady now f g ready h = ground arith

get-cons :
    (a k : ℕ) (f : FoundationData) (rest : StorageMap ℕ FoundationData)
    → get k ((a, f) ∷ rest) ≡ (if a == k then some f else get k rest)
unfolding get
get-cons a k f rest = refl

get-head :
    (a : ℕ) (f : FoundationData) (rest : StorageMap ℕ FoundationData)
    → get a ((a, f) ∷ rest) ≡ some f
get-head a f rest = ground (arith, get-cons a a f rest)

get-tail :
    (a k : ℕ) (f g : FoundationData) (rest : StorageMap ℕ FoundationData)
    → get a rest ≡ none
    → get k rest ≡ some g
    → (get k ((a, f) ∷ rest) ≡ some g) × (a ≢ k)
get-tail a k f g rest first h =
    let apart : a ≢ k = λ e. let first' = rw e at first in cc in
    (ground (arith, get-cons a k f rest, apart), apart)

pays_nothing : (now : ℕ) → pays now none ≡ 0
unfolding pays
pays_nothing now = refl

module _ (c : Config) (v : ReservedView c) where
  open c use {Store}

  -- The rest of the loop, over entries that still stand as they were read.
  record EachFollows (now : ℕ) (rest : StorageMap ℕ FoundationData) (s s' : State Store)
      : Type 0 where
    entry :
        (k : ℕ) (f : FoundationData) → get k rest ≡ some f → get k s'.foundation ≡ tick now (some f)
    others : (k : ℕ) → get k rest ≡ none → get k s'.foundation ≡ get k s.foundation
    map_ : IsMap s'.foundation
    free : (k : ℕ) → IsFree c k s → IsFree c k s'
    pays_ :
        (k : ℕ) → IsFree c k s → released k s'.events ≡ pays now (get k rest) + released k s.events
    leaves_ :
        (k : ℕ)
        → IsFree c k s
        → v.reserved k s'.balances ≡ v.reserved k s.balances - pays now (get k rest)

  cons-Follows :
      (now a : ℕ) (f : FoundationData) (rest : StorageMap ℕ FoundationData) (s s1 s2 : State Store)
      → get a rest ≡ none
      → Follows c v now a f s s1
      → EachFollows now rest s1 s2
      → EachFollows now ((a, f) ∷ rest) s s2
  cons-Follows now a f rest s s1 s2 first one more = record {
    entry = λ k g h. elim (Bool-cases (a == k)) [
      | inl same ↦
          let e : a ≡ k = ground arith in
          let f_g : f ≡ g = ground (arith, get-cons a k f rest) in
          rw (more.others k (rw (← e) first), ← e, ← f_g) one.entry
      | inr apart ↦ more.entry k g (ground (arith, get-cons a k f rest))
    ];
    others = λ k h.
        let apart : a ≢ k = λ e. ground (arith, get-cons a k f rest) in
        rw (more.others k (ground (arith, get-cons a k f rest))) (one.others k apart);
    map_ = more.map_;
    free = λ k h. more.free k (one.free k h);
    pays_ = λ k h. elim (Bool-cases (a == k)) [
      | inl same ↦
          let e : a ≡ k = ground arith in
          let none_ : get k rest ≡ none = rw (← e) first in
          let here_ : get k ((a, f) ∷ rest) ≡ some f = ground (arith, get-cons a k f rest) in
          let r1 = rw same at (one.pays_ k h) in
          let r2 = rw none_ at (more.pays_ k (one.free k h)) in
          rw here_ (omega (arith, r1, r2, pays_nothing now))
      | inr apart ↦
          let there : get k ((a, f) ∷ rest) ≡ get k rest = ground (arith, get-cons a k f rest) in
          let r1 = rw apart at (one.pays_ k h) in
          rw there (omega (arith, r1, more.pays_ k (one.free k h)))
    ];
    leaves_ = λ k h. elim (Bool-cases (a == k)) [
      | inl same ↦
          let e : a ≡ k = ground arith in
          let none_ : get k rest ≡ none = rw (← e) first in
          let here_ : get k ((a, f) ∷ rest) ≡ some f = ground (arith, get-cons a k f rest) in
          let r1 = rw same at (one.leaves_ k h) in
          let r2 = rw none_ at (more.leaves_ k (one.free k h)) in
          rw here_ (omega (arith, r1, r2, pays_nothing now))
      | inr apart ↦
          let there : get k ((a, f) ∷ rest) ≡ get k rest = ground (arith, get-cons a k f rest) in
          let r1 = rw apart at (one.leaves_ k h) in
          rw there (omega (arith, r1, more.leaves_ k (one.free k h)))
    ];
  }

  unlock_each-Follows :
      (now : ℕ) (rest : StorageMap ℕ FoundationData) (s : State Store)
      → IsMap rest
      → IsMap s.foundation
      → ((k : ℕ) (f : FoundationData) → get k rest ≡ some f → get k s.foundation ≡ some f)
      → AllReady rest
      → (s' : State Store) × (unlock_each c now rest s ≡ ok s') × EachFollows now rest s s'
  unfolding unlock_each
  unlock_each-Follows now [] s d m still ready = (
    s,
    refl,
    record {
      entry = λ k f h. absurd (unfold get in cc);
      others = λ k h. refl;
      map_ = m;
      free = λ k h. h;
      pays_ = λ k h. unfold get pays in ground arith;
      leaves_ = λ k h. unfold get pays in ground arith;
    },
  )
  unlock_each-Follows now ((a, f) ∷ rest) s d m still ready =
      let head_ = get-head a f rest in
      let (s1, done, one) =
        unlock_one-Follows c v now a f s m (still a f head_) (ready a f head_) in
      let (s2, done', more) =
        unlock_each-Follows now rest s1 d.1 one.map_
          (λ k g h.
            let (kept, apart) = get-tail a k f g rest d.0 h in
            rw (one.others k apart) (still k g kept))
          (λ k g h. ready k g (get-tail a k f g rest d.0 h).0) in
      (s2, rw done done', cons-Follows now a f rest s s1 s2 d.0 one more)

  -- One epoch of the hook takes every fund one step along its own schedule. An account whose fund waits
  -- for no approval has what that schedule pays taken out of its reserved balance, as far as it goes,
  -- and an event for as much. The conditions: each account has one fund, all funds are ready, and
  -- `unreserve` and `repatriate_reserved` move reserved balances as documented. The hook never fails
  -- then, and the funds stay so.
  pub unlock_fund-tick :
      (now : ℕ) (s : State Store)
      → IsMap s.foundation
      → AllReady s.foundation
      → (s' : State Store) × (unlock_fund c now s ≡ ok s')
        × ((k : ℕ) → get k s'.foundation ≡ tick now (get k s.foundation))
        × ((k : ℕ) → IsFree c k s → IsFree c k s')
        × ((k : ℕ)
            → IsFree c k s
            → (released k s'.events ≡ pays now (get k s.foundation) + released k s.events)
              × (v.reserved k s'.balances
                  ≡ v.reserved k s.balances - pays now (get k s.foundation)))
        × IsMap s'.foundation
        × AllReady s'.foundation
  unfolding unlock_fund
  unlock_fund-tick now s m ready =
      let (s', done, each) = unlock_each-Follows now s.foundation s m m (λ k f h. h) ready in
      let ticked : (k : ℕ) → get k s'.foundation ≡ tick now (get k s.foundation) = λ k.
        elim (Option-cases (get k s.foundation)) [
          | inl missing ↦ rw (each.others k missing, missing) (unfold tick in refl)
          | inr (f, found) ↦ rw (each.entry k f found, found) refl
        ] in
      (
        s',
        done,
        ticked,
        each.free,
        λ k h. (each.pays_ k h, each.leaves_ k h),
        each.map_,
        λ k g h. elim (Option-cases (get k s.foundation)) [
          | inl missing ↦ absurd (ground (arith, each.others k missing))
          | inr (f, found) ↦ tick-IsReady now f g (ready k f found) (rw (← each.entry k f found) h)
        ],
      )
