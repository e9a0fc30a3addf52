-- ===== src/ModControl/Names.antt =====
-- Lists of names: std::vector with std::find and std::sort, and std::unordered_set, whose list is in
-- the order that the set is walked in.
use Prim.Native.String.{compare}
use Prim.Native.Nat.{Ordering}
use levilamina_rust_loader.Base.{
  ℕ, ◌≤◌, ◌<◌, ◌≡◌, refl, String, Bool, true, false, not, ◌||◌, none, some, List, [], ◌∷◌, ◌++◌,
  if◌then◌else◌, ltb, ◌==◌, string_eq, arith, count, count-append, eq_self,
}
use text.Mathlib.TextEquality.{eq_iff}
use levilamina_rust_loader.Base.Assoc.{find, keys_where, IsMap}

abbrev pub has : String → List String → Bool
has x [] = false
has x (y ∷ ys) = y == x || has x ys

-- How often a list holds a name.
abbrev pub times : String → List String → ℕ
times x l = count (λ y. y == x) l

-- `a < b` on std::string, which compares bytes.
abbrev pub less : String → String → Bool
less a b = elim (compare a b) [ Ordering.lt ↦ true | _ ↦ false ]

insert_name : String → List String → List String
insert_name x [] = x ∷ []
insert_name x (y ∷ ys) = let rest = insert_name x ys in if less y x then y ∷ rest else x ∷ y ∷ ys

-- `std::sort`
unfoldable pub sort_names : List String → List String
unfolding insert_name
sort_names [] = []
sort_names (x ∷ xs) = insert_name x (sort_names xs)

abbrev pub reversed : List String → List String
reversed [] = []
reversed (x ∷ xs) = reversed xs ++ x ∷ []

pub has-times : (x : String) (l : List String) → has x l ≡ ltb 0 (times x l)
has-times x [] = refl
has-times x (y ∷ ys) = ground (arith, has-times x ys)

pub has-append : (x : String) (k l : List String) → has x (k ++ l) ≡ (has x k || has x l)
has-append x [] l = refl
has-append x (y ∷ k) l = ground (arith, has-append x k l)

pub times-reversed : (x : String) (l : List String) → times x (reversed l) ≡ times x l
times-reversed x [] = refl
times-reversed x (y ∷ ys) =
    ground (arith, times-reversed x ys, count-append (λ z. z == x) (reversed ys) (y ∷ []))

times-insert : (x y : String) (l : List String) → times x (insert_name y l) ≡ times x (y ∷ l)
unfolding insert_name
times-insert x y [] = refl
times-insert x y (z ∷ zs) = ground (arith, times-insert x y zs)

pub times-sort : (x : String) (l : List String) → times x (sort_names l) ≡ times x l
unfolding sort_names
times-sort x [] = refl
times-sort x (y ∷ ys) = ground (arith, times-sort x ys, times-insert x y (sort_names ys))

pub times-keys_where :
    {V : Type 0} (p : V → Bool) (x : String) (m : List (String × V))
    → IsMap m
    → times x (keys_where p m) ≡ elim (find x m) [ none ↦ 0 | some v ↦ if p v then 1 else 0 ]
unfolding keys_where find
times-keys_where p x [] u = refl
times-keys_where p x ((k, v) ∷ m) u = ground (arith, times-keys_where p x m u.1, eq_iff k x, u.0)

-- How many names of a list are in none of two others.
abbrev pub outside : List String → List String → List String → ℕ
outside k l xs = count (λ x. not (has x k || has x l)) xs

pub outside-le : (d : String) (k l xs : List String) → outside k (d ∷ l) xs ≤ outside k l xs
outside-le d k l [] = omega arith
outside-le d k l (x ∷ xs) = ground (arith, outside-le d k l xs)

pub outside-lt :
    (d : String) (k l xs : List String)
    → has d xs ≡ true
    → has d k ≡ false
    → has d l ≡ false
    → outside k (d ∷ l) xs < outside k l xs
outside-lt d k l [] h a b = cc
outside-lt d k l (x ∷ xs) h a b =
    ground (arith, outside-lt d k l xs, outside-le d k l xs, eq_iff x d, eq_self d)

pub outside-move : (d : String) (k l xs : List String) → outside (d ∷ k) l xs ≡ outside k (d ∷ l) xs
outside-move d k l [] = refl
outside-move d k l (x ∷ xs) = ground (arith, outside-move d k l xs)
