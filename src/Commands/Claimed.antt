-- ===== src/Commands/Claimed.antt =====
-- src/bridge/runtime/Commands.cpp: what a registration makes of the tables, from the claim on.
use levilamina_rust_loader.Base.{
  ℕ, zero, suc, ◌+◌, ◌≡◌, ◌≢◌, ◌⊎◌, refl, String, Bool, true, false, not, ◌||◌, Option, none, some,
  List, [], ◌∷◌, ◌++◌, if◌then◌else◌, ◌==◌, nat_eq, string_eq, arith, Option-cases, Bool-cases, inl,
  inr, All, length, length-append, ltb, sym, ◌∙◌,
}
use mathlib.Core.List.{append_assoc}
use levilamina_rust_loader.Base.Assoc.{find, put, erase, find-put, find-erase}
use levilamina_rust_loader.Commands.Bindings.{
  CommandBinding, Executor, Commands, claim_binding, install, at_most, after_claim, callee,
}

abbrev pub own : ℕ → ℕ → ℕ → CommandBinding
own raw cb user = record { mod_ptr = raw; cb = cb; user = user }

-- The server has been given so many executors more, all of one binding.
abbrev pub Given : ℕ → ℕ → Commands → Commands → Type 0
Given a n s t =
    (new : List Executor) × (t.executors ≡ new ++ s.executors)
    × (length new ≡ n)
    × All (λ (e : Executor). e.binding ≡ a) new

-- What a registration of a name by a mod, of so many overloads, with an answer, made of the state.
pub record IsBound (muted : ℕ → Bool) (throws_after : Option ℕ) (name : String) (raw cb user : ℕ)
    (n : ℕ) (s : Commands) (done : Bool) (t : Commands) : Type 0 where
  pub others : (j : String) → j ≢ name → find j t.by_name ≡ find j s.by_name
  pub objects :
      (i : ℕ)
      → find name s.by_name ≢ some i
      → i ≢ s.next_binding
      → find i t.bindings ≡ find i s.bindings
  pub bound :
      done ≡ true
      → (a : ℕ) × (find name t.by_name ≡ some a)
        × ((e : Executor)
            → e.binding ≡ a
            → callee muted e t ≡ (if muted raw then none else some (own raw cb user)))
  pub fresh :
      done ≡ true
      → find name s.by_name ≡ none
      → (find name t.by_name ≡ some s.next_binding) × Given s.next_binding n s t
  pub rebound :
      (a : ℕ)
      → find name s.by_name ≡ some a
      → (find name t.by_name ≡ some a) × (t.executors ≡ s.executors)
  pub refused :
      done ≡ false
      → (t ≡ s)
        ⊎ ((find name s.by_name ≡ none)
            × (find name t.by_name ≡ none)
            × ((k : ℕ) × (throws_after ≡ some k)
                × Given s.next_binding (if ltb k n then k else n) s t))
  pub kept :
      (a : ℕ) (b : CommandBinding)
      → find name s.by_name ≡ some a
      → find a s.bindings ≡ some b
      → b.mod_ptr ≢ 0
      → b.mod_ptr ≢ raw
      → (done ≡ false) × (t ≡ s)

All-snoc :
    (P : Executor → Type 0) (xs : List Executor) (x : Executor)
    → All P xs
    → P x
    → All P (xs ++ x ∷ [])
All-snoc P [] x h p = (p, tt)
All-snoc P (y ∷ xs) x h p = (h.0, All-snoc P xs x h.1 p)

install-new :
    (name : String) (a i n : ℕ) (executors : List Executor)
    → (new : List Executor) × (install name a i n executors ≡ new ++ executors)
      × (length new ≡ n)
      × All (λ (e : Executor). e.binding ≡ a) new
unfolding install
install-new name a i zero executors = ([], refl, refl, tt)
install-new name a i (suc n) executors =
    let e : Executor = record { command = name; overload = i; binding = a } in
    let (new, same, many, all) = install-new name a (i + 1) n (e ∷ executors) in
    (
      new ++ e ∷ [],
      same ∙ sym (append_assoc new (e ∷ []) executors),
      omega (arith, length-append new (e ∷ []), many),
      All-snoc (λ (x : Executor). x.binding ≡ a) new e all refl,
    )

module _ (muted : ℕ → Bool) (throws_after : Option ℕ) (name : String) (raw cb user n : ℕ)
    (s : Commands) where
  abbrev Bound : Bool × Commands → Type 0
  Bound r = IsBound muted throws_after name raw cb user n s r.0 r.1

  pub unchanged : Bound (false, s)
  unchanged = record {
    others = λ j h. refl;
    objects = λ i h k. refl;
    bound = λ h. absurd (cc);
    fresh = λ h. absurd (cc);
    rebound = λ a h. (h, refl);
    refused = λ h. inl refl;
    kept = λ a b e f g h. (refl, refl);
  }

  calls_own :
      (r : (raw == 0) ≡ false) (c : (cb == 0) ≡ false) (t : Commands) (a : ℕ) (e : Executor)
      → find a t.bindings ≡ some (own raw cb user)
      → e.binding ≡ a
      → callee muted e t ≡ (if muted raw then none else some (own raw cb user))
  unfolding callee
  calls_own r c t a e f b = rw (callee, b, f, r, c) (ground arith)

  module _ (r : (raw == 0) ≡ false) (c : (cb == 0) ≡ false) where
    abbrev claimed : Commands
    claimed = record s {
      bindings = put s.next_binding (own raw cb user) s.bindings;
      by_name = put name s.next_binding s.by_name;
      next_binding = s.next_binding + 1;
    }

    other_objects :
        (i : ℕ)
        → i ≢ s.next_binding
        → find i (put s.next_binding (own raw cb user) s.bindings) ≡ find i s.bindings
    other_objects i k = ground (arith, find-put s.next_binding i (own raw cb user) s.bindings, k)

    is_taken :
        find name s.by_name ≡ none
        → Bound (true, record claimed { executors = install name s.next_binding 0 n s.executors })
    is_taken e =
        let t : Commands = record claimed {
          executors = install name s.next_binding 0 n s.executors;
        } in
        let hit : find s.next_binding t.bindings ≡ some (own raw cb user) =
          ground (arith, find-put s.next_binding s.next_binding (own raw cb user) s.bindings) in
        let leads : find name t.by_name ≡ some s.next_binding =
          ground
            (arith, find-put name name s.next_binding s.by_name, string_eq.same_iff name name) in
        record {
          others = λ j h.
              ground (arith, find-put name j s.next_binding s.by_name, string_eq.same_iff name j);
          objects = λ i h k. other_objects i k;
          bound = λ h. (s.next_binding, leads, λ x k. calls_own r c t s.next_binding x hit k);
          fresh = λ h k. (leads, install-new name s.next_binding 0 n s.executors);
          rebound = λ a h. absurd (ground (arith, e, h));
          refused = λ h. absurd (cc);
          kept = λ a b f g h k. absurd (ground (arith, e, f));
        }

    is_thrown :
        (k : ℕ)
        → throws_after ≡ some k
        → find name s.by_name ≡ none
        → Bound (
          false,
          record claimed {
            executors = install name s.next_binding 0 (at_most k n) s.executors;
            by_name = erase name (put name s.next_binding s.by_name);
          },
        )
    is_thrown k thrown e = record {
      others = λ j h. ground (
        arith,
        find-put name j s.next_binding s.by_name,
        find-erase name j (put name s.next_binding s.by_name),
        string_eq.same_iff name j,
      );
      objects = λ i h m. other_objects i m;
      bound = λ h. absurd (cc);
      fresh = λ h m. absurd (cc);
      rebound = λ a h. absurd (ground (arith, e, h));
      refused = λ h. inr (
        e,
        ground (
          arith,
          find-erase name name (put name s.next_binding s.by_name),
          string_eq.same_iff name name,
        ),
        (k, thrown, install-new name s.next_binding 0 (at_most k n) s.executors),
      );
      kept = λ a b f g h m. absurd (ground (arith, e, f));
    }

    is_rebound :
        (a : ℕ) (b : CommandBinding)
        → find name s.by_name ≡ some a
        → find a s.bindings ≡ some b
        → not (b.mod_ptr == 0 || b.mod_ptr == raw) ≡ false
        → Bound (true, record s { bindings = put a (own raw cb user) s.bindings })
    is_rebound a b e f g =
        let hit : find a (put a (own raw cb user) s.bindings) ≡ some (own raw cb user) =
          ground (arith, find-put a a (own raw cb user) s.bindings) in
        record {
          others = λ j h. refl;
          objects = λ i h k. ground (arith, find-put a i (own raw cb user) s.bindings, e, h);
          bound = λ h. (
            a,
            e,
            λ x k.
                calls_own r c (record s { bindings = put a (own raw cb user) s.bindings }) a x hit
                  k,
          );
          fresh = λ h k. absurd (ground (arith, e, k));
          rebound = λ a' h. (h, refl);
          refused = λ h. absurd (cc);
          kept = λ a' b' h i j k. absurd (ground (arith, e, f, g, h, i, j, k));
        }

    fresh_claim :
        (x : Option ℕ)
        → throws_after ≡ x
        → find name s.by_name ≡ none
        → Bound (after_claim x n name (claim_binding name raw cb user s))
    unfolding after_claim claim_binding
    fresh_claim none f e = rw (claim_binding, e, after_claim) (is_taken e)
    fresh_claim (some k) f e = rw (claim_binding, e, after_claim) (is_thrown k f e)

    pub after_claim-IsBound :
        Bound (after_claim throws_after n name (claim_binding name raw cb user s))
    unfolding after_claim claim_binding
    after_claim-IsBound = elim (Option-cases (find name s.by_name)) [
      | inl e ↦ fresh_claim throws_after refl e
      | inr (a, e) ↦ elim (Option-cases (find a s.bindings)) [
        | inl f ↦ rw (after_claim, claim_binding, e, f) unchanged
        | inr (b, f) ↦ elim (Bool-cases (not (b.mod_ptr == 0 || b.mod_ptr == raw))) [
          | inl g ↦ rw (after_claim, claim_binding, e, f, g) unchanged
          | inr g ↦ rw (after_claim, claim_binding, e, f, g) (is_rebound a b e f g)
        ]
      ]
    ]
