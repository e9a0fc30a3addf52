-- ===== src/Base/Assoc.antt =====
-- std::unordered_map as an association list: `find`, `put` (operator[] =), `erase`, and the sweep
-- `erase_if` of the iterator loops. The order of the entries stands for the iteration order.
use Prim.Native.Nat.{ℕ, suc, ◌+◌, ◌≤◌, ◌<◌}
use mathlib.Core.Path.{◌≡◌, refl}
use mathlib.Core.Bool.{Bool, true, false}
use mathlib.Core.List.{List, [], ◌∷◌}
use mathlib.Core.Option.{Option, none, some}
use native.Mathlib.Omega.{arith}
use levilamina_rust_loader.Base.Tests.{if◌then◌else◌}
use levilamina_rust_loader.Base.Lists.{length, All}
use mathlib.Core.Logic.{◌≢◌}
use levilamina_rust_loader.Base.Keys.{Key, ◌==◌, eq_self}

module _ {ℓ κ} {K : Type ℓ} {V : Type κ} ⦃e : Key K⦄ where
  unfoldable pub find : K → List (K × V) → Option V
  find k [] = none
  find k ((j, v) ∷ m) = if j == k then some v else find k m

  unfoldable pub put : K → V → List (K × V) → List (K × V)
  put k v [] = (k, v) ∷ []
  put k v ((j, w) ∷ m) = let rest = put k v m in if j == k then (k, v) ∷ m else (j, w) ∷ rest

  unfoldable pub erase : K → List (K × V) → List (K × V)
  erase k [] = []
  erase k ((j, w) ∷ m) = let rest = erase k m in if j == k then rest else (j, w) ∷ rest

  -- `m.emplace(k, v)`: an entry that is there stays.
  unfoldable pub emplace : K → V → List (K × V) → List (K × V)
  emplace k v m = elim (find k m) [ none ↦ put k v m | some _ ↦ m ]

  pub emplace_fresh :
      (k : K) (v : V) (m : List (K × V)) → find k m ≡ none → emplace k v m ≡ put k v m
  unfolding emplace
  emplace_fresh k v m h = rw (h, emplace)

  pub find-put :
      (k j : K) (v : V) (m : List (K × V))
      → find j (put k v m) ≡ (if k == j then some v else find j m)
  unfolding find put
  find-put k j v [] = refl
  find-put k j v ((i, w) ∷ m) =
      ground (arith, e.same_iff k j, e.same_iff i k, e.same_iff i j, find-put k j v m)

  pub find-erase :
      (k j : K) (m : List (K × V)) → find j (erase k m) ≡ (if k == j then none else find j m)
  unfolding find erase
  find-erase k j [] = ground arith
  find-erase k j ((i, w) ∷ m) =
      ground (arith, e.same_iff k j, e.same_iff i k, e.same_iff i j, find-erase k j m)

  -- No key twice.
  abbrev pub IsMap : List (K × V) → Type κ
  IsMap [] = Unit
  IsMap ((k, v) ∷ m) = (find k m ≡ none) × IsMap m

  pub put-IsMap : (k : K) (v : V) (m : List (K × V)) → IsMap m → IsMap (put k v m)
  unfolding find put
  put-IsMap k v [] h = (refl, tt)
  put-IsMap k v ((i, w) ∷ m) h =
      ground (arith, e.same_iff i k, e.same_iff k i, find-put k i v m, put-IsMap k v m h.1)

  pub erase-IsMap : (k : K) (m : List (K × V)) → IsMap m → IsMap (erase k m)
  unfolding find erase
  erase-IsMap k [] h = tt
  erase-IsMap k ((i, w) ∷ m) h =
      ground (arith, e.same_iff i k, e.same_iff k i, find-erase k i m, erase-IsMap k m h.1)

module _ {ℓ κ} {K : Type ℓ} {V : Type κ} where
  -- `for (it = m.begin(); ...) if (p(it->second)) it = m.erase(it); else ++it;`
  unfoldable pub erase_if : (V → Bool) → List (K × V) → List (K × V)
  erase_if p [] = []
  erase_if p ((k, v) ∷ m) = let rest = erase_if p m in if p v then rest else (k, v) ∷ rest

  -- How many entries hold a value that passes.
  unfoldable pub count_values : (V → Bool) → List (K × V) → ℕ
  count_values p [] = 0
  count_values p ((k, v) ∷ m) = (if p v then 1 else 0) + count_values p m

  -- The keys of the entries that pass, in iteration order.
  unfoldable pub keys_where : (V → Bool) → List (K × V) → List K
  keys_where p [] = []
  keys_where p ((k, v) ∷ m) = let rest = keys_where p m in if p v then k ∷ rest else rest

  pub count_values-erase_if_self :
      (p : V → Bool) (m : List (K × V)) → count_values p (erase_if p m) ≡ 0
  unfolding count_values erase_if
  count_values-erase_if_self p [] = refl
  count_values-erase_if_self p ((k, v) ∷ m) = ground (arith, count_values-erase_if_self p m)

  pub length-erase_if :
      (p : V → Bool) (m : List (K × V)) → length (erase_if p m) + count_values p m ≡ length m
  unfolding count_values erase_if
  length-erase_if p [] = omega arith
  length-erase_if p ((k, v) ∷ m) = ground (arith, length-erase_if p m)

  pub count_values-le : (p : V → Bool) (m : List (K × V)) → count_values p m ≤ length m
  unfolding count_values
  count_values-le p [] = omega arith
  count_values-le p ((k, v) ∷ m) = ground (arith, count_values-le p m)

  -- A sweep of what `p` names leaves the count of a disjoint test alone.
  pub count_values-erase_if :
      (p q : V → Bool) (m : List (K × V))
      → ((v : V) → p v ≡ true → q v ≡ false)
      → count_values q (erase_if p m) ≡ count_values q m
  unfolding count_values erase_if
  count_values-erase_if p q [] h = refl
  count_values-erase_if p q ((k, v) ∷ m) h = ground (arith, h v, count_values-erase_if p q m h)

-- What a sweep leaves of a looked-up value.
abbrev pub keep_unless {κ} : {V : Type κ} → (V → Bool) → Option V → Option V
keep_unless p none = none
keep_unless p (some v) = if p v then none else some v

module _ {ℓ κ} {K : Type ℓ} {V : Type κ} ⦃e : Key K⦄ where
  pub find-erase_if :
      (p : V → Bool) (k : K) (m : List (K × V))
      → IsMap m
      → find k (erase_if p m) ≡ keep_unless p (find k m)
  unfolding find erase_if
  find-erase_if p k [] h = refl
  find-erase_if p k ((i, v) ∷ m) h = ground (arith, e.same_iff i k, find-erase_if p k m h.1)

  pub erase_if-IsMap : (p : V → Bool) (m : List (K × V)) → IsMap m → IsMap (erase_if p m)
  unfolding find erase_if
  erase_if-IsMap p [] h = tt
  erase_if-IsMap p ((k, v) ∷ m) h = ground (arith, find-erase_if p k m h.1, erase_if-IsMap p m h.1)

  pub erase_absent : (k : K) (m : List (K × V)) → find k m ≡ none → erase k m ≡ m
  unfolding find erase
  erase_absent k [] h = refl
  erase_absent k ((i, v) ∷ m) h = ground (arith, erase_absent k m)

  pub count_values-erase :
      (p : V → Bool) (k : K) (m : List (K × V)) (v : V)
      → IsMap m
      → find k m ≡ some v
      → count_values p (erase k m) + (if p v then 1 else 0) ≡ count_values p m
  unfolding find erase count_values
  count_values-erase p k [] v u h = cc
  count_values-erase p k ((i, w) ∷ m) v u h =
      ground (arith, e.same_iff i k, erase_absent k m, count_values-erase p k m v u.1)

  pub count_values-put_fresh :
      (p : V → Bool) (k : K) (v : V) (m : List (K × V))
      → find k m ≡ none
      → count_values p (put k v m) ≡ count_values p m + (if p v then 1 else 0)
  unfolding find put count_values
  count_values-put_fresh p k v [] h = ground arith
  count_values-put_fresh p k v ((i, w) ∷ m) h = ground (arith, count_values-put_fresh p k v m)

  pub count_values-put :
      (p : V → Bool) (k : K) (v w : V) (m : List (K × V))
      → find k m ≡ some w
      → p v ≡ p w
      → count_values p (put k v m) ≡ count_values p m
  unfolding find put count_values
  count_values-put p k v w [] h s = cc
  count_values-put p k v w ((i, x) ∷ m) h s = ground (arith, count_values-put p k v w m)

  pub count_values_pos :
      (p : V → Bool) (k : K) (m : List (K × V)) (v : V)
      → find k m ≡ some v
      → p v ≡ true
      → 0 < count_values p m
  unfolding find count_values
  count_values_pos p k [] v h s = cc
  count_values_pos p k ((i, w) ∷ m) v h s = ground (arith, count_values_pos p k m v)

  pub length-put_fresh :
      (k : K) (v : V) (m : List (K × V)) → find k m ≡ none → length (put k v m) ≡ suc (length m)
  unfolding find put
  length-put_fresh k v [] h = refl
  length-put_fresh k v ((i, w) ∷ m) h = ground (arith, length-put_fresh k v m)

  pub count_values_zero :
      (p : V → Bool) (m : List (K × V))
      → IsMap m
      → ((k : K) (v : V) → find k m ≡ some v → p v ≡ false)
      → count_values p m ≡ 0
  unfolding find count_values
  count_values_zero p [] u h = refl
  count_values_zero p ((i, w) ∷ m) u h = ground (
    arith,
    h i w,
    eq_self i,
    count_values_zero p m u.1 (λ k v f. ground (arith, h k v, e.same_iff i k, u.0)),
  )

  pub length-put-le : (k : K) (v : V) (m : List (K × V)) → length (put k v m) ≤ length m + 1
  unfolding put
  length-put-le k v [] = omega arith
  length-put-le k v ((i, w) ∷ m) = ground (arith, length-put-le k v m)

  pub length-erase : (k : K) (m : List (K × V)) → length (erase k m) ≤ length m
  unfolding erase
  length-erase k [] = omega arith
  length-erase k ((i, w) ∷ m) = ground (arith, length-erase k m)

  -- A key that the sweep's list does not name holds no value that passes.
  pub keys_where_complete :
      (p : V → Bool) (m : List (K × V)) (k : K) (v : V)
      → find k m ≡ some v
      → All (λ i. i ≢ k) (keys_where p m)
      → p v ≡ false
  unfolding find keys_where
  keys_where_complete p [] k v h a = cc
  keys_where_complete p ((i, w) ∷ m) k v h a =
      ground (arith, e.same_iff i k, keys_where_complete p m k v)

  pub count_values-erase-le :
      (p : V → Bool) (k : K) (m : List (K × V)) → count_values p (erase k m) ≤ count_values p m
  unfolding erase count_values
  count_values-erase-le p k [] = omega arith
  count_values-erase-le p k ((i, w) ∷ m) = ground (arith, count_values-erase-le p k m)

  pub count_values-put-le :
      (p : V → Bool) (k : K) (v : V) (m : List (K × V))
      → count_values p (put k v m) ≤ count_values p m + (if p v then 1 else 0)
  unfolding put count_values
  count_values-put-le p k v [] = ground arith
  count_values-put-le p k v ((i, w) ∷ m) = ground (arith, count_values-put-le p k v m)

pub count_values-erase_if-le {ℓ κ} :
    {K : Type ℓ} {V : Type κ} (p q : V → Bool) (m : List (K × V))
    → count_values q (erase_if p m) ≤ count_values q m
unfolding erase_if count_values
count_values-erase_if-le p q [] = omega arith
count_values-erase_if-le p q ((i, w) ∷ m) = ground (arith, count_values-erase_if-le p q m)
