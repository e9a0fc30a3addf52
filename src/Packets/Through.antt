-- ===== src/Packets/Through.antt =====
-- src/bridge/net/PacketHooks.cpp: what the hooks are for, told without state: callbacks that call
-- nobody are a chain of functions on packets.
use levilamina_rust_loader.Base.{
  ℕ, ◌<◌, ◌≡◌, refl, ap, String, true, false, Option, none, some, List, [], ◌∷◌, ◌++◌, nat_eq,
  arith, length,
}
use levilamina_rust_loader.Packets.Codec.{
  Header, PacketEdit, decode_header, encode_header, raw_header,
}
use levilamina_rust_loader.Packets.RoundTrip.{header_of, read-encoded, drop_bytes-append}
use levilamina_rust_loader.Packets.Tables.{Direction, PacketSub, State}
use levilamina_rust_loader.Packets.Dispatch.{
  Outcome, returned, threw, Program, ends, replaces, PacketEvent, Host, Sender, run_program,
  Current, obey, note_call, drop_bytes, event_of, intercept,
}

-- The answer of a callback that calls nobody.
pub data Reply : Type 0 where
  keeps refuses fails : Reply
  rewrites : PacketEdit → List ℕ → Reply

abbrev blank : PacketEdit
blank = record { packet_id = 0; sender_sub_id = 0; target_sub_id = 0 }

abbrev pub program_of : Reply → Program
program_of keeps = ends (returned 0 blank)
program_of refuses = ends (returned 2 blank)
program_of fails = ends threw
program_of (rewrites edit body) = replaces body (ends (returned 1 edit))

-- The header fields and the body.
abbrev pub Packet : Type 0
Packet = PacketEdit × List ℕ

abbrev outcome_of : Reply → Outcome × Option (List ℕ)
outcome_of keeps = (returned 0 blank, none)
outcome_of refuses = (returned 2 blank, none)
outcome_of fails = (threw, none)
outcome_of (rewrites edit body) = (returned 1 edit, some body)

-- A packet's bytes.
abbrev pub wire : Packet → List ℕ
wire (edit, body) = encode_header edit ++ body

abbrev pub Replies : Type 0
Replies = ℕ → ℕ → PacketEvent → Reply

abbrev pub apply : Reply → Packet → Option Packet
apply keeps p = some p
apply refuses p = none
apply fails p = some p
apply (rewrites edit body) p = some (edit, body)

abbrev pub seen : Direction → ℕ → String → Packet → PacketEvent
seen d conn address (edit, body) = record {
  direction = d;
  conn_id = conn;
  address = address;
  packet_id = edit.packet_id;
  sender_sub_id = edit.sender_sub_id;
  target_sub_id = edit.target_sub_id;
  body = body;
}

-- What becomes of a packet on its way through the interceptors, none where one refuses it.
unfoldable pub through : Replies → Direction → ℕ → String → List PacketSub → Packet → Option Packet
through replies d conn address [] p = some p
through replies d conn address (sub ∷ subs) p =
    elim (apply (replies sub.cb sub.user (seen d conn address p)) p) [
      | none ↦ none
      | some q ↦ through replies d conn address subs q
    ]

-- Header fields that fit into a header.
abbrev pub Fits : PacketEdit → Type 0
Fits edit = (edit.packet_id < 1024) × (edit.sender_sub_id < 4) × (edit.target_sub_id < 4)

abbrev pub IsPlain : Host → Replies → Type 0
IsPlain host replies =
    (cb user : ℕ) (ev : PacketEvent) → host.on_packet cb user ev ≡ program_of (replies cb user ev)

abbrev pub forget : Current → Packet
forget c = (c.edit, c.body)

-- The states differ in the record of calls only.
abbrev pub SameHooks : State → State → Type 0
SameHooks s t = record t { called = s.called } ≡ s

-- What the loop leaves: the translated packet, which is the one it began with if none rewrote it.
abbrev pub Left : Current → Option Packet → Option Current → Type 0
Left c r none = r ≡ none
Left c r (some e) =
    (r ≡ some (forget e)) × (e.changed ≡ false → (forget e ≡ forget c) × (c.changed ≡ false))

Left-rewritten :
    (c next : Current) (r : Option Packet) (x : Option Current)
    → next.changed ≡ true
    → Left next r x
    → Left c r x
Left-rewritten c next r none h l = l
Left-rewritten c next r (some e) h l = (l.0, λ f. absurd (ground (arith, h, l.1 f)))

module _ (host : Host) (replies : Replies) (plain : IsPlain host replies) (sender : Sender)
    (d : Direction) (conn : ℕ) (address : String) where
  abbrev Passed : List PacketSub → Current → State → Type 0
  Passed subs c s =
      (r : Option Current) × (t : State) × (intercept host sender d conn address subs c s
        ≡ some (r, t))
      × SameHooks s t
      × Left c (through replies d conn address subs (forget c)) r

  meets :
      (sub : PacketSub) (c : Current) (u : State) (reply : Reply)
      → replies sub.cb sub.user (event_of host sender d conn address c) ≡ reply
      → run_program sender
          (host.on_packet sub.cb sub.user (event_of host sender d conn address c))
          none
          u
        ≡ some (outcome_of reply, u)
  unfolding run_program
  meets sub c u keeps e = rw (plain sub.cb sub.user (event_of host sender d conn address c), e) refl
  meets sub c u refuses e =
      rw (plain sub.cb sub.user (event_of host sender d conn address c), e) refl
  meets sub c u fails e = rw (plain sub.cb sub.user (event_of host sender d conn address c), e) refl
  meets sub c u (rewrites edit body) e =
      rw (plain sub.cb sub.user (event_of host sender d conn address c), e) refl

  same_noted : (sub : PacketSub) (s t : State) → SameHooks (note_call d sub s) t → SameHooks s t
  unfolding note_call
  same_noted sub s t e = ap (λ (x : State). record x { called = s.called }) e

  pub intercept_plain : (subs : List PacketSub) (c : Current) (s : State) → Passed subs c s
  unfolding intercept through obey
  intercept_plain [] c s = (some c, s, refl, refl, (refl, λ e. (refl, e)))
  intercept_plain (sub ∷ subs) c s =
      go (replies sub.cb sub.user (event_of host sender d conn address c)) refl
        (λ next. intercept_plain subs next (note_call d sub s))
    where
      go :
          (reply : Reply)
          → replies sub.cb sub.user (event_of host sender d conn address c) ≡ reply
          → ((next : Current) → Passed subs next (note_call d sub s))
          → Passed (sub ∷ subs) c s
      go keeps e rec =
          let (r, t, ran, same, left) = rec c in
          (
            r,
            t,
            rw (intercept, meets sub c (note_call d sub s) keeps e, obey) ran,
            same_noted sub s t same,
            rw (through, e) left,
          )
      go refuses e rec = (
        none,
        note_call d sub s,
        rw (intercept, meets sub c (note_call d sub s) refuses e, obey) refl,
        same_noted sub s (note_call d sub s) refl,
        rw (through, e) refl,
      )
      go fails e rec =
          let (r, t, ran, same, left) = rec c in
          (
            r,
            t,
            rw (intercept, meets sub c (note_call d sub s) fails e, obey) ran,
            same_noted sub s t same,
            rw (through, e) left,
          )
      go (rewrites edit body) e rec =
          let next : Current = record { edit = edit; body = body; changed = true } in
          let (r, t, ran, same, left) = rec next in
          (
            r,
            t,
            rw (intercept, meets sub c (note_call d sub s) (rewrites edit body) e, obey) ran,
            same_noted sub s t same,
            rw (through, e)
                (Left-rewritten c next (through replies d conn address subs (edit, body)) r refl
                  left),
          )

-- The fields that an interceptor is shown at first.
abbrev pub edit_of : Header → PacketEdit
edit_of h = record {
  packet_id = h.packet_id;
  sender_sub_id = h.sender_sub_id;
  target_sub_id = h.target_sub_id;
}

header_of-edit :
    (edit : PacketEdit) (size : ℕ) → Fits edit → edit_of (header_of (raw_header edit) size) ≡ edit
unfolding raw_header
header_of-edit edit size (f, g, h) = ground arith

pub decoded :
    (edit : PacketEdit) (body : List ℕ)
    → Fits edit
    → (h : Header) × (decode_header (wire (edit, body)) ≡ some h)
      × (edit_of h ≡ edit)
      × (drop_bytes h.size (wire (edit, body)) ≡ body)
decoded edit body fits =
    let (bytes, wrote, reads, short) = read-encoded edit body in
    rw wrote (
      header_of (raw_header edit) (length bytes),
      reads,
      header_of-edit edit (length bytes) fits,
      drop_bytes-append bytes body,
    )
