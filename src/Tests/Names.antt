-- ===== src/Tests/Names.antt =====
-- src/bridge/runtime/Commands.cpp on two mods that want one command.
use levilamina_rust_loader.Base.{
  ℕ, ◌≡◌, refl, Bool, true, false, none, some, [], ◌∷◌, ◌++◌, string_eq, nat_eq,
}
use levilamina_rust_loader.Base.Assoc.{find, put, erase}
use levilamina_rust_loader.Commands.Bindings.{
  Commands, Overload, parameters, compound, word, number, decode_overloads, decode_params,
  decode_param, with_kind, kind_from_string, int_kind, register_command, register_command_ex,
  after_claim, claim_binding, install, after_decode, Executor, callee, clear_names, clear_binding,
  on_rust_mod_gone,
}

abbrev count : Overload
count =
    parameters
      (compound (("name", word "n") ∷ ("kind", word "int") ∷ ("optional", number true) ∷ []) ∷ [])

-- The mod 10 has the command "home".
abbrev held : Commands
held = record {
  bindings = (1, record { mod_ptr = 10; cb = 1; user = 5 }) ∷ [];
  by_name = ("home", 1) ∷ [];
  executors = (record { command = "home"; overload = 0; binding = 1 }) ∷ [];
  next_binding = 2;
}

abbrev nobody_muted : ℕ → Bool
nobody_muted raw = false

-- The other mod is refused, its own command is taken.
home_taken : register_command none 11 "home" 2 6 held ≡ (false, held)
unfolding register_command claim_binding after_claim find
home_taken = refl

abbrev held_too : Commands
held_too = record {
  bindings = held.bindings ++ (2, record { mod_ptr = 11; cb = 2; user = 6 }) ∷ [];
  by_name = ("home", 1) ∷ ("warp", 2) ∷ [];
  executors = (record { command = "warp"; overload = 0; binding = 2 }) ∷ held.executors;
  next_binding = 3;
}

warp_taken : register_command none 11 "warp" 2 6 held ≡ (true, held_too)
unfolding register_command claim_binding after_claim install find put
warp_taken = refl

-- The server throws at the second of two overloads.
abbrev half_taken : Bool × Commands
half_taken = register_command_ex (some 1) 11 "warp" (some (count ∷ count ∷ [])) 2 6 held

abbrev first_of_warp : Executor
first_of_warp = record { command = "warp"; overload = 0; binding = 2 }

-- The answer is false and the name is free, but the first executor calls the mod, and still does after
-- the clean-up of the mod.
orphan_calls :
    (half_taken.0 ≡ false)
    × (find "warp" half_taken.1.by_name ≡ none)
    × (half_taken.1.executors ≡ first_of_warp ∷ held.executors)
    × (callee nobody_muted first_of_warp (on_rust_mod_gone 11 half_taken.1)
        ≡ some (record { mod_ptr = 11; cb = 2; user = 6 }))
unfolding register_command_ex after_decode decode_overloads decode_params decode_param with_kind
    kind_from_string claim_binding after_claim install find put erase callee on_rust_mod_gone
    clear_names clear_binding
orphan_calls = (refl, refl, refl, refl)

counted :
    decode_overloads (count ∷ [])
    ≡ some ((record { name = "n"; kind = int_kind; enum_name = ""; optional = true } ∷ []) ∷ [])
unfolding decode_overloads decode_params decode_param with_kind kind_from_string find
counted = refl
