-- ===== src/Tests/Interceptors.antt =====
-- src/bridge/net/PacketHooks.cpp on two mods: one rewrites what goes out, the other refuses the
-- packets that begin with 9.
use levilamina_rust_loader.Base.{
  ℕ, ◌≡◌, refl, Option, none, some, true, List, [], ◌∷◌, ◌++◌, ◌%◌, ◌^◌, ◌≤◌, arith, All, map,
  if◌then◌else◌, ◌==◌, nat_eq,
}
use levilamina_rust_loader.Base.Assoc.{find, put}
use levilamina_rust_loader.Packets.Codec.{
  Header, PacketEdit, decode_header, encode_header, read_uvarint, write_uvarint, raw_header,
}
use levilamina_rust_loader.Packets.RoundTrip.{decode-encode}
use levilamina_rust_loader.Packets.Tables.{
  outbound, State, Call, without_conns, address_of, init, register, refresh_gates, snapshot_for,
  without_mod, on_rust_mod_gone,
}
use levilamina_rust_loader.Packets.Dispatch.{
  ends, returned, sends, registers, conn_registers, unloads, Host, Event, server_sends, receives,
  opens, closes, mod_acts, send, receive, life, drop_bytes, send_with, dispatch, run_subs,
  intercept, run_program, forward, hand, obey, rebuild, note_call,
}
use levilamina_rust_loader.Packets.InSync.{Ends, InSync, IsFair}
use levilamina_rust_loader.Packets.Life.{life-IsOrderly}
use levilamina_rust_loader.Packets.Through.{
  Reply, keeps, refuses, rewrites, Replies, program_of, wire, through, Fits,
}
use levilamina_rust_loader.Packets.Translated.{address_at, sent, delivered, send_translates}
use levilamina_rust_loader.Packets.Pump.{becomes, first_kept, receive_translates}

abbrev chat : PacketEdit
chat = record { packet_id = 9; sender_sub_id = 1; target_sub_id = 2 }

decode-encode_example :
    (h : Header) × (decode_header (encode_header chat ++ 5 ∷ []) ≡ some h)
    × (h.packet_id ≡ chat.packet_id % 2 ^ 10)
    × (h.sender_sub_id ≡ chat.sender_sub_id % 4)
    × (h.target_sub_id ≡ chat.target_sub_id % 4)
    × (drop_bytes h.size (encode_header chat ++ 5 ∷ []) ≡ 5 ∷ [])
    × (h.size ≤ 5)
decode-encode_example = decode-encode chat (5 ∷ [])

abbrev refuses_nines : List ℕ → Reply
refuses_nines [] = keeps
refuses_nines (b ∷ body) = if b == 9 then refuses else keeps

-- The callback 1 puts a 7 in front of a body, any other one refuses nines.
abbrev replies : Replies
replies cb user ev = if cb == 1 then rewrites chat (7 ∷ ev.body) else refuses_nines ev.body

abbrev host : Host
host = record {
  on_packet = λ cb user ev. program_of (replies cb user ev);
  on_conn = λ cb user conn address opened. ends (returned 0 chat);
  get_ip_and_port = λ conn. some "10.0.0.1:19132";
}

-- A callback that sends on its connection what it sees.
abbrev echo : Host
echo = record host {
  on_packet = λ cb user ev. sends ev.conn_id ev.body none (ends (returned 0 chat));
  on_conn = λ cb user conn address opened. sends conn (1 ∷ 2 ∷ []) none (ends (returned 0 chat));
}

abbrev day : List Event
day =
    mod_acts (registers 100 10 3 1 0 (λ h. conn_registers 101 11 2 0 (λ g. ends (returned 0 chat))))
    ∷ opens 4 true
    ∷ server_sends 4 (9 ∷ 5 ∷ []) (some 9)
    ∷ receives 4 ((8 ∷ 6 ∷ []) ∷ [])
    ∷ closes 4
    ∷ []

life-IsOrderly_example :
    Ends (λ t. (t.depth ≡ 0) × InSync t × All IsFair t.called) (life echo day init)
life-IsOrderly_example = life-IsOrderly echo day

abbrev two_mods : State
two_mods = (register 101 11 3 2 0 (register 100 10 2 1 0 init).1).1

two_mods-InSync : InSync two_mods
unfolding register refresh_gates
two_mods-InSync = (refl, refl, refl)

at_rest : two_mods.depth ≡ 0
unfolding register refresh_gates
at_rest = refl

chat-Fits : Fits chat
chat-Fits = (omega arith, omega arith, omega arith)

send_translates_example :
    (t : State) × (send host 1 4 (wire (chat, 5 ∷ [])) (some 9) two_mods ≡ some t)
    × (t.handed
        ≡ sent 4
            (through replies outbound 4
              (address_at host 4 two_mods)
              (snapshot_for outbound two_mods.packet_subs)
              (chat, 5 ∷ []))
            two_mods.handed)
    × (record t {
      handed = two_mods.handed;
      called = two_mods.called;
      addresses = two_mods.addresses;
    }
        ≡ two_mods)
send_translates_example =
    send_translates host replies 0 4 chat (5 ∷ []) (some 9) two_mods (λ cb user ev. refl) chat-Fits
      refl two_mods-InSync at_rest

-- The 7 is in front of what goes out.
sevens :
    through replies outbound 4 "" (snapshot_for outbound two_mods.packet_subs) (chat, 5 ∷ [])
    ≡ some (chat, 7 ∷ 5 ∷ [])
unfolding through snapshot_for register refresh_gates
sevens = refl

abbrev arrived : List (PacketEdit × List ℕ)
arrived = (chat, 9 ∷ []) ∷ (chat, 3 ∷ []) ∷ (chat, 4 ∷ []) ∷ []

receive_translates_example :
    (t : State) × (receive host (send host 2) 4 (map wire arrived) two_mods
      ≡ some (
        (
          delivered (first_kept (becomes host replies 4 two_mods) arrived).0,
          map wire (first_kept (becomes host replies 4 two_mods) arrived).1,
        ),
        t,
      ))
    × (record t { called = two_mods.called; addresses = two_mods.addresses } ≡ two_mods)
receive_translates_example =
    receive_translates host replies (send host 2) 4 arrived two_mods (λ cb user ev. refl)
      (chat-Fits, (chat-Fits, (chat-Fits, tt))) two_mods-InSync at_rest

-- The nine is refused, the three arrives, the four stays with the peer.
three_arrives :
    first_kept (becomes host replies 4 two_mods) arrived
    ≡ (some (chat, 3 ∷ []), (chat, 4 ∷ []) ∷ [])
unfolding first_kept through snapshot_for register refresh_gates
three_arrives = refl

-- The callback 1 unloads the mod of the other interceptor.
abbrev unloader : Host
unloader = record host {
  on_packet =
      λ cb user ev. if cb == 1 then unloads 11 (ends (returned 0 chat)) else ends (returned 0 chat);
}

abbrev callers : Option State → List ℕ
callers none = []
callers (some t) = map (λ (call : Call). call.sub.mod_ptr) t.called

-- A dispatch calls the interceptor of a mod that has gone since it began.
stale_call : callers (send unloader 2 4 (wire (chat, 5 ∷ [])) (some 9) two_mods) ≡ 11 ∷ 10 ∷ []
unfolding send send_with dispatch run_subs intercept run_program on_rust_mod_gone without_mod
    without_conns forward hand obey rebuild note_call address_of snapshot_for register refresh_gates
    decode_header encode_header read_uvarint write_uvarint raw_header find put
stale_call = refl

-- A fifth byte with more bits than are left is read, less those bits: `readUVarInt` takes it for 2^28.
long_number : read_uvarint 0 0 0 (128 ∷ 128 ∷ 128 ∷ 128 ∷ 17 ∷ []) ≡ some (2 ^ 28, 5)
unfolding read_uvarint
long_number = refl
