-- ===== src/Commands/Bindings.antt =====
-- src/bridge/runtime/Commands.cpp: who a command's name belongs to, and the declarations of parameters.
-- The server's own registration, which cannot be undone, is a parameter: whether it throws.
use levilamina_rust_loader.Base.{
  ℕ, zero, suc, ◌+◌, length, ltb, String, Bool, true, false, not, ◌||◌, Option, none, some, List,
  [], ◌∷◌, if◌then◌else◌, ◌==◌, nat_eq, string_eq,
}
use levilamina_rust_loader.Base.Assoc.{find, put, erase}

pub data ParamKind : Type 0 where
  int_kind bool_kind float_kind dimension_kind string_kind enum_kind soft_enum_kind actor_kind
        player_kind block_pos_kind vec3_kind raw_text_kind message_kind json_kind item_kind
        block_name_kind effect_kind actor_type_kind command_kind relative_float_kind
        file_path_kind :
      ParamKind

-- `kindFromString`
abbrev pub kinds : List (String × ParamKind)
kinds =
    ("int", int_kind)
    ∷ ("bool", bool_kind)
    ∷ ("float", float_kind)
    ∷ ("dimension", dimension_kind)
    ∷ ("string", string_kind)
    ∷ ("enum", enum_kind)
    ∷ ("soft_enum", soft_enum_kind)
    ∷ ("actor", actor_kind)
    ∷ ("player", player_kind)
    ∷ ("block_pos", block_pos_kind)
    ∷ ("vec3", vec3_kind)
    ∷ ("raw_text", raw_text_kind)
    ∷ ("message", message_kind)
    ∷ ("json", json_kind)
    ∷ ("item", item_kind)
    ∷ ("block_name", block_name_kind)
    ∷ ("effect", effect_kind)
    ∷ ("actor_type", actor_type_kind)
    ∷ ("command", command_kind)
    ∷ ("relative_float", relative_float_kind)
    ∷ ("file_path", file_path_kind)
    ∷ []

unfoldable pub kind_from_string : String → Option ParamKind
kind_from_string s = find s kinds

pub record ParamDecl : Type 0 where
  pub name : String
  pub kind : ParamKind
  pub enum_name : String
  pub optional : Bool

-- A value in a declaration: a string, a number that is zero or not, or anything else, which
-- converts to neither.
pub data Value : Type 0 where
  word : String → Value
  number : Bool → Value
  something : Value

-- An element of a list in a declaration: a compound, a list, or anything else.
pub data Element : Type 0 where
  compound : List (String × Value) → Element
  other_element : Element

pub data Overload : Type 0 where
  parameters : List Element → Overload
  other_overload : Overload

infixl 20 ◌>>=◌
abbrev ◌>>=◌ : {A B : Type 0} → Option A → (A → Option B) → Option B
none >>= k = none
(some a) >>= k = k a

-- A conversion that fails throws.
abbrev pub as_word : Value → Option String
as_word (word s) = some s
as_word v = none

abbrev pub as_flag : Value → Option Bool
as_flag (number b) = some b
as_flag v = none

-- `if (po.contains(key)) field = po.at(key)`
abbrev pub field_or : {A : Type 0} → (Value → Option A) → A → Option Value → Option A
field_or read default none = some default
field_or read default (some v) = read v

-- The fields behind a known kind.
unfoldable pub with_kind : String → ParamKind → List (String × Value) → Option ParamDecl
with_kind name kind fields = do
  enum_name ← field_or as_word "" (find "enum" fields)
  optional ← field_or as_flag false (find "optional" fields)
  some (record { name = name; kind = kind; enum_name = enum_name; optional = optional })

-- One parameter: none where the registration is refused, none within where it is skipped.
unfoldable pub decode_param : Element → Option (Option ParamDecl)
decode_param other_element = some none
decode_param (compound fields) = elim (find "name" fields) [
  | none ↦ some none
  | some name_value ↦ elim (find "kind" fields) [
    | none ↦ some none
    | some kind_value ↦ do
      name ← as_word name_value
      kind_name ← as_word kind_value
      kind ← kind_from_string kind_name
      decl ← with_kind name kind fields
      some (some decl)
  ]
]

unfoldable pub decode_params : List Element → Option (List ParamDecl)
decode_params [] = some []
decode_params (e ∷ es) =
    let rest = decode_params es in
    elim (decode_param e) [
      | none ↦ none
      | some none ↦ rest
      | some (some decl) ↦ elim rest [ none ↦ none | some decls ↦ some (decl ∷ decls) ]
    ]

-- The loop over the overloads.
unfoldable pub decode_overloads : List Overload → Option (List (List ParamDecl))
decode_overloads [] = some []
decode_overloads (other_overload ∷ os) = decode_overloads os
decode_overloads (parameters es ∷ os) = elim (decode_params es) [
  | none ↦ none
  | some decls ↦ elim (decode_overloads os) [ none ↦ none | some rest ↦ some (decls ∷ rest) ]
]

-- The holder of a command's name; 0 is null.
pub record CommandBinding : Type 0 where
  pub mod_ptr : ℕ
  pub cb : ℕ
  pub user : ℕ

-- What the server runs for an overload of a command: a closure that holds a binding by its address.
pub record Executor : Type 0 where
  pub command : String
  pub overload : ℕ
  pub binding : ℕ

-- `by_name` is `gCommands`, which leads to the bindings by their addresses. A binding lives as long as
-- a name or an executor holds it: none is taken out here. The executors stay with the server, which
-- has no way to take one back. The next binding is made at an address that is not in use.
pub record Commands : Type 0 where
  pub bindings : List (ℕ × CommandBinding)
  pub by_name : List (String × ℕ)
  pub executors : List Executor
  pub next_binding : ℕ

abbrev pub init : Commands
init = record { bindings = []; by_name = []; executors = []; next_binding = 1 }

-- `claimBinding`: none where the name is another live mod's, else the binding, and whether it is new.
unfoldable pub claim_binding : String → ℕ → ℕ → ℕ → Commands → Option (ℕ × Bool) × Commands
claim_binding name raw cb user s =
    let own : CommandBinding = record { mod_ptr = raw; cb = cb; user = user } in
    elim (find name s.by_name) [
      | none ↦ (
        some (s.next_binding, true),
        record s {
          bindings = put s.next_binding own s.bindings;
          by_name = put name s.next_binding s.by_name;
          next_binding = s.next_binding + 1;
        },
      )
      | some a ↦ elim (find a s.bindings) [
        | none ↦ (none, s)
        | some b ↦
            if not (b.mod_ptr == 0 || b.mod_ptr == raw)
            then (none, s)
            else (some (a, false), record s { bindings = put a own s.bindings })
      ]
    ]

-- The server is given so many overloads, from a number on.
unfoldable pub install : String → ℕ → ℕ → ℕ → List Executor → List Executor
install name a i zero executors = executors
install name a i (suc n) executors =
    install name a (i + 1) n ((record { command = name; overload = i; binding = a }) ∷ executors)

abbrev pub at_most : ℕ → ℕ → ℕ
at_most k n = if ltb k n then k else n

-- The part that both registrations have, of a command with so many overloads: the server takes them
-- all, or throws after it took some (`throws_after`), and then only the name is taken back.
unfoldable pub after_claim : Option ℕ → ℕ → String → Option (ℕ × Bool) × Commands → Bool × Commands
after_claim throws_after n name (none, s) = (false, s)
after_claim throws_after n name (some (a, false), s) = (true, s)
after_claim throws_after n name (some (a, true), s) = elim throws_after [
  | none ↦ (true, record s { executors = install name a 0 n s.executors })
  | some k ↦ (
    false,
    record s {
      executors = install name a 0 (at_most k n) s.executors;
      by_name = erase name s.by_name;
    },
  )
]

-- `api_register_command`, which has one overload.
unfoldable pub register_command : Option ℕ → ℕ → String → ℕ → ℕ → Commands → Bool × Commands
register_command throws_after raw name cb user s =
    if raw == 0 || cb == 0
    then (false, s)
    else after_claim throws_after 1 name (claim_binding name raw cb user s)

-- The claim is made only where the declarations can be read and there are some.
unfoldable pub after_decode :
    Option ℕ → ℕ → String → ℕ → ℕ → Commands → Option (List (List ParamDecl)) → Bool × Commands
after_decode throws_after raw name cb user s none = (false, s)
after_decode throws_after raw name cb user s (some []) = (false, s)
after_decode throws_after raw name cb user s (some (decls ∷ rest)) =
    after_claim throws_after (length (decls ∷ rest)) name (claim_binding name raw cb user s)

-- `api_register_command_ex`, with the overloads that the text holds, none where it holds no list of
-- them.
unfoldable pub register_command_ex :
    Option ℕ → ℕ → String → Option (List Overload) → ℕ → ℕ → Commands → Bool × Commands
register_command_ex throws_after raw name tag cb user s =
    if raw == 0 || cb == 0 then (false, s) else elim tag [
      | none ↦ (false, s)
      | some os ↦ after_decode throws_after raw name cb user s (decode_overloads os)
    ]

-- Whom an executor calls, or none where it answers that the command is not available.
unfoldable pub callee : (ℕ → Bool) → Executor → Commands → Option CommandBinding
callee muted e s = elim (find e.binding s.bindings) [
  | none ↦ none
  | some b ↦ if b.mod_ptr == 0 || muted b.mod_ptr || b.cb == 0 then none else some b
]

-- A binding of the mod is emptied.
unfoldable pub clear_binding : ℕ → ℕ → List (ℕ × CommandBinding) → List (ℕ × CommandBinding)
clear_binding raw a bindings = elim (find a bindings) [
  | none ↦ bindings
  | some b ↦
      if b.mod_ptr == raw
      then put a (record { mod_ptr = 0; cb = 0; user = 0 }) bindings
      else bindings
]

-- The loop of `commandsOnRustModGone` over the names.
unfoldable pub clear_names :
    ℕ → List (String × ℕ) → List (ℕ × CommandBinding) → List (ℕ × CommandBinding)
clear_names raw [] bindings = bindings
clear_names raw ((name, a) ∷ rest) bindings = clear_names raw rest (clear_binding raw a bindings)

-- `commandsOnRustModGone`
unfoldable pub on_rust_mod_gone : ℕ → Commands → Commands
on_rust_mod_gone raw s = record s { bindings = clear_names raw s.by_name s.bindings }
