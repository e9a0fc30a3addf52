-- ===== src/Commands/Gone.antt =====
-- src/bridge/runtime/Commands.cpp: no name leads to a mod that has gone.
use levilamina_rust_loader.Base.{
  ℕ, ◌≡◌, ◌≢◌, String, some, List, [], ◌∷◌, ◌==◌, nat_eq, string_eq, arith, Bool-cases, inl, inr,
}
use levilamina_rust_loader.Base.Assoc.{find, find-put}
use levilamina_rust_loader.Commands.Bindings.{
  CommandBinding, Commands, clear_binding, clear_names, on_rust_mod_gone,
}

-- The binding at an address is not the mod's.
abbrev IsFree : ℕ → ℕ → List (ℕ × CommandBinding) → Type 0
IsFree raw a bindings = (b : CommandBinding) → find a bindings ≡ some b → b.mod_ptr ≢ raw

clear_binding-IsFree :
    (raw a : ℕ) (bindings : List (ℕ × CommandBinding))
    → raw ≢ 0
    → IsFree raw a (clear_binding raw a bindings)
unfolding clear_binding
clear_binding-IsFree raw a bindings nz b h =
    ground (arith, nz, h, find-put a a (record { mod_ptr = 0; cb = 0; user = 0 }) bindings)

clear_binding-stays :
    (raw a i : ℕ) (bindings : List (ℕ × CommandBinding))
    → raw ≢ 0
    → IsFree raw i bindings
    → IsFree raw i (clear_binding raw a bindings)
unfolding clear_binding
clear_binding-stays raw a i bindings nz f b h =
    ground (arith, nz, h, f b, find-put a i (record { mod_ptr = 0; cb = 0; user = 0 }) bindings)

clear_names-stays :
    (raw i : ℕ) (names : List (String × ℕ)) (bindings : List (ℕ × CommandBinding))
    → raw ≢ 0
    → IsFree raw i bindings
    → IsFree raw i (clear_names raw names bindings)
unfolding clear_names
clear_names-stays raw i [] bindings nz f = f
clear_names-stays raw i ((name, a) ∷ rest) bindings nz f =
    clear_names-stays raw i rest (clear_binding raw a bindings) nz
      (clear_binding-stays raw a i bindings nz f)

clear_names-IsFree :
    (raw a : ℕ) (name : String) (names : List (String × ℕ)) (bindings : List (ℕ × CommandBinding))
    → raw ≢ 0
    → find name names ≡ some a
    → IsFree raw a (clear_names raw names bindings)
unfolding clear_names find
clear_names-IsFree raw a name [] bindings nz h = absurd (cc)
clear_names-IsFree raw a name ((j, i) ∷ rest) bindings nz h = elim (Bool-cases (j == name)) [
  | inl f ↦
      let same : i ≡ a = ground (arith, f, h) in
      clear_names-stays raw a rest (clear_binding raw i bindings) nz
        (rw same (clear_binding-IsFree raw a bindings nz))
  | inr f ↦
      clear_names-IsFree raw a name rest (clear_binding raw i bindings) nz (ground (arith, f, h))
]

-- When a mod goes, whose address is not null, no name leads to a binding of it.
pub gone_names :
    (raw : ℕ) (s : Commands)
    → raw ≢ 0
    → (name : String) (a : ℕ) (b : CommandBinding)
    → find name (on_rust_mod_gone raw s).by_name ≡ some a
    → find a (on_rust_mod_gone raw s).bindings ≡ some b
    → b.mod_ptr ≢ raw
unfolding on_rust_mod_gone
gone_names raw s nz name a b h = clear_names-IsFree raw a name s.by_name s.bindings nz h b
