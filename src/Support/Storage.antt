-- ===== src/Support/Storage.antt =====
-- A FRAME `StorageMap` as an association list: the first entry of a key is the stored value. A map
-- that starts empty and is changed by `insert` and `remove` alone has each key once (`IsMap`).
use fusotao.Prelude.{
  ℕ, ◌+◌, ◌≤◌, ◌≡◌, refl, ◌≢◌, Bool, true, false, Option, none, some, List, [], ◌∷◌, arith,
  if◌then◌else◌, Eq, Bool-cases, beq_self, inl, inr,
}

abbrev pub StorageMap : Type 0 → Type 0 → Type 0
StorageMap K V = List (K × V)

module _ {K V : Type 0} ⦃e : Eq K⦄ where
  unfoldable pub get : K → StorageMap K V → Option V
  get k [] = none
  get k ((j, v) ∷ m) = if e.beq j k then some v else get k m

  unfoldable pub insert : K → V → StorageMap K V → StorageMap K V
  insert k v [] = (k, v) ∷ []
  insert k v ((j, w) ∷ m) = if e.beq j k then (k, v) ∷ m else (j, w) ∷ insert k v m

  unfoldable pub remove : K → StorageMap K V → StorageMap K V
  remove k [] = []
  remove k ((j, w) ∷ m) = if e.beq j k then m else (j, w) ∷ remove k m

  -- What `try_mutate_exists` does with the option that its closure leaves behind.
  abbrev pub put : K → Option V → StorageMap K V → StorageMap K V
  put k (some v) m = insert k v m
  put k none m = remove k m

  abbrev pub contains_key : K → StorageMap K V → Bool
  contains_key k m = elim (get k m) [ none ↦ false | some _ ↦ true ]

  pub get-insert :
      (k j : K) (v : V) (m : StorageMap K V)
      → get j (insert k v m) ≡ (if e.beq k j then some v else get j m)
  unfolding get insert
  get-insert k j v [] = refl
  get-insert k j v ((i, w) ∷ m) =
      ground (arith, e.beq_iff k j, e.beq_iff i k, e.beq_iff i j, get-insert k j v m)

  pub get-insert_self : (k : K) (v : V) (m : StorageMap K V) → get k (insert k v m) ≡ some v
  get-insert_self k v m = ground (arith, get-insert k k v m, beq_self e k)

  pub get-insert_ne :
      (k j : K) (v : V) (m : StorageMap K V) → k ≢ j → get j (insert k v m) ≡ get j m
  get-insert_ne k j v m h = ground (arith, get-insert k j v m, e.beq_iff k j)

  pub get-remove_ne : (k j : K) (m : StorageMap K V) → k ≢ j → get j (remove k m) ≡ get j m
  unfolding get remove
  get-remove_ne k j [] h = refl
  get-remove_ne k j ((i, w) ∷ m) h =
      ground (arith, e.beq_iff i k, e.beq_iff i j, get-remove_ne k j m)

  pub get-put_ne :
      (k j : K) (o : Option V) (m : StorageMap K V) → k ≢ j → get j (put k o m) ≡ get j m
  get-put_ne k j none m h = get-remove_ne k j m h
  get-put_ne k j (some v) m h = get-insert_ne k j v m h

  -- No key stands twice.
  abbrev pub IsMap : StorageMap K V → Type 0
  IsMap [] = Unit
  IsMap ((k, v) ∷ m) = (get k m ≡ none) × IsMap m

  pub insert-IsMap : (k : K) (v : V) (m : StorageMap K V) → IsMap m → IsMap (insert k v m)
  unfolding get insert
  insert-IsMap k v [] h = (refl, tt)
  insert-IsMap k v ((i, w) ∷ m) h =
      ground (arith, insert-IsMap k v m h.1, get-insert k i v m, e.beq_iff i k, e.beq_iff k i)

  pub remove-IsMap : (k : K) (m : StorageMap K V) → IsMap m → IsMap (remove k m)
  unfolding get remove
  remove-IsMap k [] h = tt
  remove-IsMap k ((i, w) ∷ m) h =
      ground (arith, remove-IsMap k m h.1, get-remove_ne k i m, e.beq_iff i k)

  pub put-IsMap : (k : K) (o : Option V) (m : StorageMap K V) → IsMap m → IsMap (put k o m)
  put-IsMap k none m h = remove-IsMap k m h
  put-IsMap k (some v) m h = insert-IsMap k v m h

  pub get-remove_self : (k : K) (m : StorageMap K V) → IsMap m → get k (remove k m) ≡ none
  unfolding get remove
  get-remove_self k [] h = refl
  get-remove_self k ((i, w) ∷ m) h = ground (arith, get-remove_self k m h.1, e.beq_iff i k)

  pub get-put_self : (k : K) (o : Option V) (m : StorageMap K V) → IsMap m → get k (put k o m) ≡ o
  get-put_self k none m h = get-remove_self k m h
  get-put_self k (some v) m h = get-insert_self k v m

  -- A sum over the entries of a map, each with a weight.
  unfoldable pub sum_by : (K → V → ℕ) → StorageMap K V → ℕ
  sum_by w [] = 0
  sum_by w ((k, v) ∷ m) = w k v + sum_by w m

  abbrev pub weight : (K → V → ℕ) → K → Option V → ℕ
  weight w k none = 0
  weight w k (some v) = w k v

  -- Writing one key moves the sum by the difference of that key's weights.
  pub sum_by-put :
      (w : K → V → ℕ) (k : K) (o : Option V) (m : StorageMap K V)
      → sum_by w (put k o m) + weight w k (get k m) ≡ sum_by w m + weight w k o
  unfolding get insert remove sum_by
  sum_by-put w k none [] = omega arith
  sum_by-put w k (some v) [] = omega arith
  sum_by-put w k none ((i, x) ∷ m) = ground (arith, sum_by-put w k none m, e.beq_iff i k)
  sum_by-put w k (some v) ((i, x) ∷ m) = ground (arith, sum_by-put w k (some v) m, e.beq_iff i k)

  -- No entry weighs more than all of them.
  pub weight-le-sum_by :
      (w : K → V → ℕ) (k : K) (m : StorageMap K V) → weight w k (get k m) ≤ sum_by w m
  unfolding get sum_by
  weight-le-sum_by w k [] = omega arith
  weight-le-sum_by w k ((i, x) ∷ m) = ground (arith, weight-le-sum_by w k m, e.beq_iff i k)

  -- Two keys written in turn.
  pub sum_by-put-put :
      (w : K → V → ℕ) (k j : K) (o p : Option V) (m : StorageMap K V)
      → j ≢ k
      → sum_by w (put k o (put j p m)) + weight w k (get k m) + weight w j (get j m)
        ≡ sum_by w m + weight w k o + weight w j p
  sum_by-put-put w k j o p m h =
      let e = sum_by-put w k o (put j p m) in
      let e' = rw (get-put_ne j k p m h) at e in omega (arith, sum_by-put w j p m)

  -- Two entries weigh no more than all of them.
  pub weights-le-sum_by :
      (w : K → V → ℕ) (k j : K) (m : StorageMap K V)
      → k ≢ j
      → weight w k (get k m) + weight w j (get j m) ≤ sum_by w m
  weights-le-sum_by w k j m h =
      let e = weight-le-sum_by w j (put k none m) in
      let e' = rw (get-put_ne k j none m h) at e in omega (arith, sum_by-put w k none m)

  -- A value written over and then written back.
  pub insert-insert_self :
      (k : K) (v w : V) (m : StorageMap K V) → get k m ≡ some v → insert k v (insert k w m) ≡ m
  unfolding get insert
  insert-insert_self k v w [] h = cc
  insert-insert_self k v w ((i, x) ∷ m) h =
      ground (arith, insert-insert_self k v w m, e.beq_iff i k, beq_self e k)

  pub get-put :
      (k j : K) (o : Option V) (m : StorageMap K V)
      → IsMap m
      → get j (put k o m) ≡ (if e.beq k j then o else get j m)
  get-put k j (some v) m h = get-insert k j v m
  get-put k j none m h = elim (Bool-cases (e.beq k j)) [
    | inl same ↦ rw (same, ← (e.beq_iff k j).0 same) (get-remove_self k m h)
    | inr apart ↦ rw apart (get-remove_ne k j m (λ p. ground (arith, (e.beq_iff k j).1 p)))
  ]
