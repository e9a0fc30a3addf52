-- ===== src/Commands/Bound.antt =====
-- src/bridge/runtime/Commands.cpp: what a registration does to the names, the bindings and the executors.
use levilamina_rust_loader.Base.{ℕ, Option, none, some, List, nat_eq, string_eq, length}
use levilamina_rust_loader.Commands.Bindings.{Commands, Overload, ParamDecl, decode_overloads}

-- How many overloads a declaration has that can be read.
abbrev pub decoded_count : Option (List (List ParamDecl)) → ℕ
decoded_count none = 0
decoded_count (some decls) = length decls

abbrev pub overload_count : Option (List Overload) → ℕ
overload_count none = 0
overload_count (some os) = decoded_count (decode_overloads os)
