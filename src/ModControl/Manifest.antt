-- ===== src/ModControl/Manifest.antt =====
-- src/core/ModControl.cpp: what the command reads of a mod's manifest.json. The file and the JSON
-- parser are the host's: a `Reading` is what they answer.
use levilamina_rust_loader.Base.{
  String, Bool, true, false, not, Option, none, some, List, [], ◌∷◌, ◌++◌, if◌then◌else◌, ◌==◌,
  string_eq,
}

-- A value of nlohmann::json; a number is told by its kind only, since the code reads none.
mutual
  pub data Json : Type 0 where
    null number : Json
    boolean : Bool → Json
    quoted : String → Json
    array : Items → Json
    object : Fields → Json

  pub data Items : Type 0 where
    nil : Items
    cons : Json → Items → Items

  pub data Fields : Type 0 where
    end_of_object : Fields
    field : String → Json → Fields → Fields

-- What the file and the parser answer: no regular file, one that cannot be read, no JSON, a value.
pub data Reading : Type 0 where
  no_file unreadable broken : Reading
  parsed : Json → Reading

-- `Candidate::problem`, a text there.
pub data Problem : Type 0 where
  no_problem unread not_json not_object not_rust no_entry bad_reload_safe wrong_name : Problem

pub record Candidate : Type 0 where
  pub name : String
  pub entry : String
  pub version : String
  pub dependencies : List String
  pub reload_safe : Bool
  pub problem : Problem

-- `j.contains(key) ? j[key]`
unfoldable pub get_field : String → Fields → Option Json
get_field key end_of_object = none
get_field key (field k v rest) = if k == key then some v else get_field key rest

-- `j.contains(key) && j[key].is_string()`, and then the text.
unfoldable pub text_field : String → Fields → Option String
text_field key fields = elim (get_field key fields) [ some (quoted s) ↦ some s | _ ↦ none ]

-- A dependency: an object with a name, or a text; anything else is passed over.
unfoldable pub dependency : Json → List String
dependency (object fields) = elim (text_field "name" fields) [ none ↦ [] | some s ↦ s ∷ [] ]
dependency (quoted s) = s ∷ []
dependency j = []

unfoldable pub dependency_names : Items → List String
unfolding dependency
dependency_names nil = []
dependency_names (cons j rest) = dependency j ++ dependency_names rest

unfoldable pub dependencies_field : Fields → List String
dependencies_field fields = elim (get_field "dependencies" fields) [
  | some (array items) ↦ dependency_names items
  | _ ↦ []
]

abbrev pub or_text : String → Option String → String
or_text d none = d
or_text d (some s) = s

-- A field that is there but no Boolean is a problem, and leaves the mod as not safe.
unfoldable pub reload_field : Fields → Bool × Problem
reload_field fields = elim (get_field "reload_safe" fields) [
  | none ↦ (false, no_problem)
  | some (boolean b) ↦ (b, no_problem)
  | some _ ↦ (false, bad_reload_safe)
]

abbrev pub failed : String → Problem → Candidate
failed name p = record {
  name = name;
  entry = "";
  version = "";
  dependencies = [];
  reload_safe = false;
  problem = p;
}

-- A manifest with an entry; a name that is not the directory's is the problem that is told.
unfoldable pub with_entry : String → Fields → String → Candidate
unfolding dependencies_field reload_field
with_entry dir fields entry =
    let name = or_text dir (text_field "name" fields) in
    let (safe, p) = reload_field fields in
    record {
      name = name;
      entry = entry;
      version = or_text "" (text_field "version" fields);
      dependencies = dependencies_field fields;
      reload_safe = safe;
      problem = if not (name == dir) then wrong_name else p;
    }

unfoldable pub is_rust_manifest : Fields → Bool
is_rust_manifest fields = elim (text_field "type" fields) [ none ↦ false | some s ↦ s == "rust" ]

unfoldable pub parse_fields : String → Fields → Candidate
unfolding with_entry is_rust_manifest
parse_fields dir fields =
    if not (is_rust_manifest fields)
    then failed dir not_rust
    else elim (text_field "entry" fields) [
      | none ↦ failed (or_text dir (text_field "name" fields)) no_entry
      | some entry ↦ with_entry dir fields entry
    ]

-- `parseCandidate`
unfoldable pub parse_candidate : Reading → String → Candidate
unfolding parse_fields
parse_candidate (parsed (object fields)) dir = parse_fields dir fields
parse_candidate (parsed j) dir = failed dir not_object
parse_candidate broken dir = failed dir not_json
parse_candidate r dir = failed dir unread

-- `ll::Expected<Candidate>`
pub data Read : Type 0 where
  candidate : Candidate → Read
  missing : Read
  refused : Problem → Read

abbrev pub accepted : Candidate → Problem → Read
accepted c no_problem = candidate c
accepted c p = refused p

abbrev pub is_file : Reading → Bool
is_file no_file = false
is_file r = true

-- `readCandidate`
unfoldable pub read_candidate : Reading → String → Read
unfolding parse_candidate
read_candidate r name =
    let c = parse_candidate r name in if not (is_file r) then missing else accepted c c.problem
