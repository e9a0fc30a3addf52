-- ===== src/ModControl/Args.antt =====
-- src/core/ModControl.cpp: `parseArgs`, the words of a command line.
use Prim.Native.Char.{Char, code}
use Prim.Native.String.{◌++◌ as ◌<>◌}
use levilamina_rust_loader.Base.{
  String, Bool, true, false, ◌&&◌, ◌||◌, List, [], ◌∷◌, if◌then◌else◌, ◌==◌, nat_eq, string_eq,
}

-- `ch == ' ' || ch == '\t'`
abbrev pub is_blank : Char → Bool
is_blank ch = code ch == 32 || code ch == 9

abbrev pub is_empty : String → Bool
is_empty String.[] = true
is_empty (String.◌∷◌ ch s) = false

-- The words of a text, where `cur` was read of the word at hand.
unfoldable pub tokens : String → String → List String
tokens String.[] cur = if is_empty cur then [] else cur ∷ []
tokens (String.◌∷◌ ch s) cur =
    let next = tokens s String.[] in
    let more = tokens s (cur <> String.◌∷◌ ch String.[]) in
    if is_blank ch then (if is_empty cur then next else cur ∷ next) else more

pub record ParsedArgs : Type 0 where
  pub sub : String
  pub name : String
  pub cascade : Bool
  pub unknown_flag : Bool
  pub unknown_flag_text : String

-- `t.rfind("--", 0) == 0`
abbrev pub is_flag : String → Bool
is_flag (String.◌∷◌ a (String.◌∷◌ b s)) = code a == 45 && code b == 45
is_flag s = false

-- The loop over the words; a third word that is no flag is passed over.
unfoldable pub take_token : ParsedArgs → String → ParsedArgs
take_token a t =
    if is_flag t
    then (if t == "--cascade"
        then record a { cascade = true }
        else record a { unknown_flag = true; unknown_flag_text = t })
    else if is_empty a.sub
    then record a { sub = t }
    else if is_empty a.name
    then record a { name = t }
    else a

unfoldable pub take_tokens : ParsedArgs → List String → ParsedArgs
unfolding take_token
take_tokens a [] = a
take_tokens a (t ∷ ts) = take_tokens (take_token a t) ts

abbrev pub no_args : ParsedArgs
no_args = record {
  sub = "";
  name = "";
  cascade = false;
  unknown_flag = false;
  unknown_flag_text = "";
}

-- `parseArgs`
unfoldable pub parse_args : String → ParsedArgs
unfolding tokens take_tokens
parse_args raw = take_tokens no_args (tokens raw "")
