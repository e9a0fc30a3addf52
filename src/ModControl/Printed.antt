-- ===== src/ModControl/Printed.antt =====
-- src/core/ModControl.cpp: a command line that is written out is read back as it was meant.
use Prim.Native.String.{◌++◌ as ◌<>◌}
use text.Mathlib.TextLemmas.{append_assoc, cons-append, nil-append, append-nil}
use levilamina_rust_loader.Base.{
  String, Bool, true, false, not, ◌&&◌, List, [], ◌∷◌, if◌then◌else◌, nat_eq, string_eq, All, ◌≡◌,
  refl, ap, ◌∙◌, arith, map,
}
use levilamina_rust_loader.ModControl.Args.{
  is_blank, is_empty, tokens, ParsedArgs, is_flag, take_token, take_tokens, no_args, parse_args,
}

-- A word has no blank in it.
abbrev no_blank : String → Bool
no_blank String.[] = true
no_blank (String.◌∷◌ ch s) = not (is_blank ch) && no_blank s

abbrev IsWord : String → Type 0
IsWord w = (no_blank w ≡ true) × (is_empty w ≡ false)

-- A gap between words.
abbrev pub all_blank : String → Bool
all_blank String.[] = true
all_blank (String.◌∷◌ ch s) = is_blank ch && all_blank s

-- The words of a line, each with the gap after it.
abbrev pub line : List (String × String) → String
line [] = ""
line ((w, gap) ∷ ws) = w <> (gap <> line ws)

-- The gaps are blank, and only the last one may be empty.
abbrev pub Separated : List (String × String) → Type 0
Separated [] = Unit
Separated ((w, gap) ∷ []) = all_blank gap ≡ true
Separated ((w, gap) ∷ next ∷ ws) =
    (all_blank gap ≡ true) × (is_empty gap ≡ false) × Separated (next ∷ ws)

abbrev pub words : List (String × String) → List String
words ws = map (λ (w : String × String). w.0) ws

tokens_word : (w s cur : String) → no_blank w ≡ true → tokens (w <> s) cur ≡ tokens s (cur <> w)
unfolding tokens
tokens_word String.[] s cur h = rw (nil-append s, append-nil cur) refl
tokens_word (String.◌∷◌ ch w) s cur h =
    let plain : is_blank ch ≡ false = ground arith in
    let later = tokens_word w s (cur <> String.◌∷◌ ch String.[]) (ground arith) in
    let glued : (cur <> String.◌∷◌ ch String.[]) <> w ≡ cur <> String.◌∷◌ ch w =
      append_assoc cur (String.◌∷◌ ch String.[]) w
      ∙ ap (λ t. cur <> t) (cons-append ch String.[] w ∙ ap (String.◌∷◌ ch) (nil-append w)) in
    rw (cons-append ch w s, plain, tokens) (later ∙ ap (tokens s) glued)

tokens_gap : (gap s : String) → all_blank gap ≡ true → tokens (gap <> s) "" ≡ tokens s ""
unfolding tokens
tokens_gap String.[] s h = rw (nil-append s) refl
tokens_gap (String.◌∷◌ ch gap) s h =
    let blank : is_blank ch ≡ true = ground arith in
    rw (cons-append ch gap s, blank, tokens) (tokens_gap gap s (ground arith))

tokens_blank :
    (gap s cur : String)
    → all_blank gap ≡ true
    → is_empty gap ≡ false
    → is_empty cur ≡ false
    → tokens (gap <> s) cur ≡ cur ∷ tokens s ""
unfolding tokens
tokens_blank String.[] s cur h e c = absurd (cc)
tokens_blank (String.◌∷◌ ch gap) s cur h e c =
    let blank : is_blank ch ≡ true = ground arith in
    rw (cons-append ch gap s, blank, c, tokens) (ap (◌∷◌ cur) (tokens_gap gap s (ground arith)))

tokens_last :
    (gap cur : String)
    → all_blank gap ≡ true
    → is_empty cur ≡ false
    → tokens (gap <> "") cur ≡ cur ∷ []
unfolding tokens
tokens_last String.[] cur h c = rw c refl
tokens_last (String.◌∷◌ ch gap) cur h c = tokens_blank (String.◌∷◌ ch gap) "" cur h refl c

tokens-line :
    (ws : List (String × String))
    → All IsWord (words ws)
    → Separated ws
    → tokens (line ws) "" ≡ words ws
tokens-line [] h b = unfold tokens in refl
tokens-line ((w, gap) ∷ []) h b =
    tokens_word w (gap <> "") "" h.0.0
    ∙ ap (tokens (gap <> "")) (nil-append w)
    ∙ tokens_last gap w b h.0.1
tokens-line ((w, gap) ∷ next ∷ ws) h b =
    tokens_word w (gap <> line (next ∷ ws)) "" h.0.0
    ∙ ap (tokens (gap <> line (next ∷ ws))) (nil-append w)
    ∙ tokens_blank gap (line (next ∷ ws)) w b.0 b.1 h.0.1
    ∙ ap (◌∷◌ w) (tokens-line (next ∷ ws) h.1 b.2)

-- The words of a command line.
abbrev pub printed : ParsedArgs → List String
printed a = a.sub ∷ a.name ∷ (if a.cascade then "--cascade" ∷ [] else [])

-- A command and the name of a mod: words without a blank, neither of which starts with "--".
pub record IsPlain (a : ParsedArgs) : Type 0 where
  pub sub_word : IsWord a.sub
  pub name_word : IsWord a.name
  pub sub_plain : is_flag a.sub ≡ false
  pub name_plain : is_flag a.name ≡ false
  pub known : (a.unknown_flag ≡ false) × (a.unknown_flag_text ≡ "")

flag_words : (b : Bool) → All IsWord (if b then "--cascade" ∷ [] else [])
flag_words true = ((refl, refl), tt)
flag_words false = tt

printed_words : (a : ParsedArgs) → IsPlain a → All IsWord (printed a)
printed_words a p = (p.sub_word, (p.name_word, flag_words a.cascade))

abbrev named : ParsedArgs → ParsedArgs
named a = record no_args { sub = a.sub; name = a.name }

take-two : (a : ParsedArgs) → IsPlain a → take_token (take_token no_args a.sub) a.name ≡ named a
unfolding take_token
take-two a p = rw (p.sub_plain, p.name_plain, p.sub_word.1) refl

take-flag :
    (a : ParsedArgs) (b : Bool)
    → take_tokens (named a) (if b then "--cascade" ∷ [] else []) ≡ record (named a) { cascade = b }
unfolding take_tokens take_token
take-flag a true = refl
take-flag a false = refl

take-printed : (a : ParsedArgs) → IsPlain a → take_tokens no_args (printed a) ≡ a
unfolding take_tokens
take-printed a p =
    ap (λ t. take_tokens t (if a.cascade then "--cascade" ∷ [] else [])) (take-two a p)
    ∙ take-flag a a.cascade
    ∙ ground (arith, p.known.0, p.known.1)

-- A line with a command, a name and perhaps --cascade, in this order, where command and name are
-- words without blanks that do not start with "--": it is read back as it was meant, whatever blanks
-- stand in front, between the words (at least one) and behind, if any.
pub parse_args-written :
    (a : ParsedArgs) (lead : String) (ws : List (String × String))
    → IsPlain a
    → all_blank lead ≡ true
    → Separated ws
    → words ws ≡ printed a
    → parse_args (lead <> line ws) ≡ a
unfolding parse_args
parse_args-written a lead ws p blank apart e =
    let all_words : All IsWord (words ws) = rw e (printed_words a p) in
    ap (take_tokens no_args) (tokens_gap lead (line ws) blank ∙ tokens-line ws all_words apart ∙ e)
    ∙ take-printed a p
