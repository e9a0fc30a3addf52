-- ===== src/ModControl/Accepted.antt =====
-- src/core/ModControl.cpp: what a manifest says that `readCandidate` accepts.
use levilamina_rust_loader.Base.{
  String, true, false, none, some, ◌==◌, string_eq, ◌≡◌, refl, arith, Option-cases, Bool-cases, inl,
  inr, ◌⊎◌,
}
use mathlib.Core.Path.{subst}
use text.Mathlib.TextEquality.{eq_iff}
use levilamina_rust_loader.ModControl.Manifest.{
  object, boolean, Fields, Reading, parsed, Problem, no_problem, Candidate, get_field, text_field,
  dependencies_field, or_text, reload_field, with_entry, is_rust_manifest, parse_fields,
  parse_candidate, candidate, accepted, read_candidate,
}

-- An object of type "rust" with an entry, no name but the directory's, and `reload_safe` as it is
-- written there, or absent.
pub record IsAccepted (fields : Fields) (name : String) (c : Candidate) : Type 0 where
  pub of_type_rust : text_field "type" fields ≡ some "rust"
  pub entered : text_field "entry" fields ≡ some c.entry
  pub named : (or_text name (text_field "name" fields) ≡ name) × (c.name ≡ name)
  pub safe :
      (get_field "reload_safe" fields ≡ some (boolean c.reload_safe))
      ⊎ ((get_field "reload_safe" fields ≡ none) × (c.reload_safe ≡ false))
  pub depends : c.dependencies ≡ dependencies_field fields

accepted_lem :
    (c d : Candidate) (p : Problem) → accepted c p ≡ candidate d → (c ≡ d) × (p ≡ no_problem)
accepted_lem c d no_problem h = ground arith
accepted_lem c d p h = absurd (cc)

reload_field_lem :
    (fields : Fields)
    → (reload_field fields).1 ≡ no_problem
    → (get_field "reload_safe" fields ≡ some (boolean (reload_field fields).0))
      ⊎ ((get_field "reload_safe" fields ≡ none) × ((reload_field fields).0 ≡ false))
unfolding reload_field
reload_field_lem fields h = ground arith

with_entry-IsAccepted :
    (name entry : String) (fields : Fields)
    → text_field "type" fields ≡ some "rust"
    → text_field "entry" fields ≡ some entry
    → (with_entry name fields entry).problem ≡ no_problem
    → IsAccepted fields name (with_entry name fields entry)
unfolding with_entry
with_entry-IsAccepted name entry fields rust e p =
    let same : (or_text name (text_field "name" fields) == name) ≡ true = ground arith in
    let named = (eq_iff (or_text name (text_field "name" fields)) name).0 same in
    record {
      of_type_rust = rust;
      entered = e;
      named = (named, named);
      safe = reload_field_lem fields (ground arith);
      depends = refl;
    }

is_rust_lem :
    (fields : Fields) → is_rust_manifest fields ≡ true → text_field "type" fields ≡ some "rust"
unfolding is_rust_manifest
is_rust_lem fields h = elim (Option-cases (text_field "type" fields)) [
  | inl e ↦ absurd (ground (arith, e, h))
  | inr (s, e) ↦ ground (arith, e, h, eq_iff s "rust")
]

parse_fields-IsAccepted :
    (name : String) (fields : Fields)
    → (parse_fields name fields).problem ≡ no_problem
    → IsAccepted fields name (parse_fields name fields)
unfolding parse_fields
parse_fields-IsAccepted name fields p = elim (Bool-cases (is_rust_manifest fields)) [
  | inr f ↦ absurd (cc (rw (f, parse_fields) at p))
  | inl f ↦ elim (Option-cases (text_field "entry" fields)) [
    | inl e ↦ absurd (cc (rw (f, e, parse_fields) at p))
    | inr (entry, e) ↦
        rw (f, e, parse_fields)
          (with_entry-IsAccepted name entry fields (is_rust_lem fields f) e
            (rw (f, e, parse_fields) at p))
  ]
]

-- A manifest that `readCandidate` accepts is a JSON object of type "rust" with an entry and no name
-- but the directory's; the mod is safe to reload exactly if `reload_safe` says true there, and its
-- dependencies are those that the manifest names.
pub read_candidate-IsAccepted :
    (r : Reading) (name : String) (c : Candidate)
    → read_candidate r name ≡ candidate c
    → (fields : Fields) × (r ≡ parsed (object fields)) × IsAccepted fields name c
unfolding read_candidate parse_candidate
read_candidate-IsAccepted (parsed (object fields)) name c h =
    let (same, p) =
      accepted_lem (parse_fields name fields) c (parse_fields name fields).problem h in
    (fields, refl, subst (IsAccepted fields name) same (parse_fields-IsAccepted name fields p))
read_candidate-IsAccepted (parsed j) name c h = absurd (cc)
read_candidate-IsAccepted r name c h = absurd (cc)
