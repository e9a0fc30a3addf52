-- ===== src/Packets/Dispatch.antt =====
-- src/bridge/net/PacketHooks.cpp: a packet goes through the interceptors. A callback is a mod's
-- code: what it does is a `Program`, a tree of its calls into the loader.
use levilamina_rust_loader.Base.{
  ℕ, zero, suc, ◌+◌, ◌-◌, String, Bool, true, false, not, Option, none, some, List, [], ◌∷◌, ◌++◌,
  ltb, if◌then◌else◌, ◌==◌, nat_eq,
}
use levilamina_rust_loader.Packets.Codec.{Header, PacketEdit, decode_header, encode_header}
use levilamina_rust_loader.Packets.Tables.{
  Direction, inbound, outbound, PacketSub, ConnSub, State, snapshot_for, address_of, forget_address,
  register, unregister, conn_register, conn_unregister, on_rust_mod_gone,
}

-- The verdicts that a callback answers; any other number counts as the first.
abbrev pub pkt_replace : ℕ
pkt_replace = 1

abbrev pub pkt_drop : ℕ
pkt_drop = 2

-- How a callback ends: with a verdict and the header fields that it wrote, or with an exception. A
-- callback on connections answers nothing, its verdict is not read.
pub data Outcome : Type 0 where
  returned : ℕ → PacketEdit → Outcome
  threw : Outcome

-- The number after a registration is the address of the new object.
pub data Program : Type 0 where
  ends : Outcome → Program
  replaces : List ℕ → Program → Program
  sends : ℕ → List ℕ → Option ℕ → Program → Program
  registers : ℕ → ℕ → ℕ → ℕ → ℕ → (ℕ → Program) → Program
  unregisters : ℕ → ℕ → (Bool → Program) → Program
  conn_registers : ℕ → ℕ → ℕ → ℕ → (ℕ → Program) → Program
  conn_unregisters : ℕ → ℕ → (Bool → Program) → Program
  unloads : ℕ → Program → Program

-- LeviRsPacketEvent
pub record PacketEvent : Type 0 where
  pub direction : Direction
  pub conn_id : ℕ
  pub address : String
  pub packet_id : ℕ
  pub sender_sub_id : ℕ
  pub target_sub_id : ℕ
  pub body : List ℕ

-- The code that callbacks lead to, with their user pointers, and what a connection's own address
-- is, none where asking for it throws.
pub record Host : Type 0 where
  pub on_packet : ℕ → ℕ → PacketEvent → Program
  pub on_conn : ℕ → ℕ → ℕ → String → Bool → Program
  pub get_ip_and_port : ℕ → Option String

-- None where the fuel runs out.
abbrev pub M : Type 0 → Type 0
M A = State → Option (A × State)

-- A send of bytes on a connection, of a packet whose number is known or not.
abbrev pub Sender : Type 0
Sender = ℕ → List ℕ → Option ℕ → State → Option State

-- The callback's calls; `replaceSink` keeps the last body that it is given.
unfoldable pub run_program : Sender → Program → Option (List ℕ) → M (Outcome × Option (List ℕ))
run_program send (ends o) buf s = some ((o, buf), s)
run_program send (replaces bytes k) buf s = run_program send k (some bytes) s
run_program send (sends conn bytes expected k) buf s = elim (send conn bytes expected s) [
  | none ↦ none
  | some t ↦ run_program send k buf t
]
run_program send (registers handle raw dir_mask cb user k) buf s =
    let (h, t) = register handle raw dir_mask cb user s in run_program send (k h) buf t
run_program send (unregisters raw target k) buf s =
    let (done, t) = unregister raw target s in run_program send (k done) buf t
run_program send (conn_registers handle raw cb user k) buf s =
    let (h, t) = conn_register handle raw cb user s in run_program send (k h) buf t
run_program send (conn_unregisters raw target k) buf s =
    let (done, t) = conn_unregister raw target s in run_program send (k done) buf t
run_program send (unloads raw k) buf s = run_program send k buf (on_rust_mod_gone raw s)

pub data Verdict : Type 0 where
  pass : Verdict
  replaced : List ℕ → Verdict
  dropped : Verdict

-- The header fields and the body that the next interceptor sees, and whether one has rewritten them.
pub record Current : Type 0 where
  pub edit : PacketEdit
  pub body : List ℕ
  pub changed : Bool

-- What the packet becomes after a callback, none where it is dropped.
unfoldable pub obey : Current → Outcome × Option (List ℕ) → Option Current
obey c (threw, buf) = some c
obey c (returned verdict pending, buf) =
    if verdict == pkt_drop
    then none
    else if not (verdict == pkt_replace)
    then some c
    else some (record {
      edit = pending;
      body = elim buf [ none ↦ [] | some bytes ↦ bytes ];
      changed = true;
    })

-- The call is written down.
unfoldable pub note_call : Direction → PacketSub → State → State
note_call d sub s = record s {
  called = record { sub = sub; direction = d; depth = s.depth } ∷ s.called;
}

abbrev pub drop_bytes : ℕ → List ℕ → List ℕ
drop_bytes zero bytes = bytes
drop_bytes (suc n) [] = []
drop_bytes (suc n) (b ∷ bytes) = drop_bytes n bytes

abbrev pub is_other : Header → Option ℕ → Bool
is_other header none = false
is_other header (some expected) = not (header.packet_id == expected)

module _ (host : Host) (send : Sender) (d : Direction) (conn : ℕ) where
  abbrev pub event_of : String → Current → PacketEvent
  event_of address c = record {
    direction = d;
    conn_id = conn;
    address = address;
    packet_id = c.edit.packet_id;
    sender_sub_id = c.edit.sender_sub_id;
    target_sub_id = c.edit.target_sub_id;
    body = c.body;
  }

  -- The loop of `dispatch` over the snapshot.
  unfoldable pub intercept : String → List PacketSub → Current → M (Option Current)
  intercept address [] c s = some (some c, s)
  intercept address (sub ∷ subs) c s =
      elim (run_program send (host.on_packet sub.cb sub.user (event_of address c)) none
        (note_call d sub s)) [
          | none ↦ none
          | some (answer, t) ↦ elim (obey c answer) [
            | none ↦ some (none, t)
            | some next ↦ intercept address subs next t
          ]
        ]

  -- The verdict after the loop.
  unfoldable pub rebuild : Option Current → Verdict
  rebuild none = dropped
  rebuild (some c) = if not c.changed then pass else replaced (encode_header c.edit ++ c.body)

  -- The part of `dispatch` from the snapshot on, and its depth guard.
  unfoldable pub run_subs : Header → List ℕ → List PacketSub → M Verdict
  run_subs header packet [] s = some (pass, s)
  run_subs header packet (sub ∷ subs) s =
      let (address, u) = address_of conn (host.get_ip_and_port conn) s in
      let start : Current = record {
        edit = record {
          packet_id = header.packet_id;
          sender_sub_id = header.sender_sub_id;
          target_sub_id = header.target_sub_id;
        };
        body = drop_bytes header.size packet;
        changed = false;
      } in
      elim (intercept address (sub ∷ subs) start (record u { depth = u.depth + 1 })) [
        | none ↦ none
        | some (c, t) ↦ some (rebuild c, record t { depth = t.depth - 1 })
      ]

  -- `dispatch`; a warning in the log is left out.
  unfoldable pub dispatch : List ℕ → Option ℕ → M Verdict
  dispatch packet expected s =
      if ltb 0 s.depth then some (pass, s) else elim (decode_header packet) [
        | none ↦ some (pass, s)
        | some header ↦
            if is_other header expected
            then some (pass, s)
            else run_subs header packet (snapshot_for d s.packet_subs) s
      ]

-- `origin` of the send hook: the server's own send.
unfoldable pub hand : ℕ → List ℕ → State → State
hand conn bytes s = record s { handed = (conn, bytes) ∷ s.handed }

-- What the send hook does with a verdict.
unfoldable pub forward : ℕ → List ℕ → Verdict → State → State
forward conn bytes dropped s = s
forward conn bytes (replaced rewritten) s = hand conn rewritten s
forward conn bytes pass s = hand conn bytes s

unfoldable pub send_with : Host → Sender → Sender
send_with host send conn bytes expected s =
    if not s.outbound_live
    then some (hand conn bytes s)
    else elim (dispatch host send outbound conn bytes expected s) [
      | none ↦ none
      | some (verdict, t) ↦ some (forward conn bytes verdict t)
    ]

-- LeviRsPacketSendHook; a send of a callback has one unit of fuel less.
unfoldable pub send : Host → ℕ → Sender
send host zero conn bytes expected s = none
send host (suc fuel) conn bytes expected s = send_with host (send host fuel) conn bytes expected s

-- The loop of the receive hook, over the packets that the peer has, in order. The answer is the
-- packet that arrives, none where the peer runs dry, and the packets that it still has.
unfoldable pub pump : Host → Sender → ℕ → List (List ℕ) → M (Option (List ℕ) × List (List ℕ))
pump host sender conn [] s = some ((none, []), s)
pump host sender conn (packet ∷ queue) s = elim (dispatch host sender inbound conn packet none s) [
  | none ↦ none
  | some (dropped, t) ↦ pump host sender conn queue t
  | some (replaced rewritten, t) ↦ some ((some rewritten, queue), t)
  | some (pass, t) ↦ some ((some packet, queue), t)
]

-- `origin` of the receive hook.
abbrev pub next_packet : List (List ℕ) → Option (List ℕ) × List (List ℕ)
next_packet [] = (none, [])
next_packet (packet ∷ queue) = (some packet, queue)

-- LeviRsPacketReceiveHook
unfoldable pub receive : Host → Sender → ℕ → List (List ℕ) → M (Option (List ℕ) × List (List ℕ))
receive host sender conn queue s =
    if not s.inbound_live then some (next_packet queue, s) else pump host sender conn queue s

module _ (host : Host) (sender : Sender) (conn : ℕ) (address : String) (opened : Bool) where
  -- The loop of `dispatchConn`; what a callback throws is logged.
  unfoldable pub notify : List ConnSub → State → Option State
  notify [] s = some s
  notify (sub ∷ subs) s =
      elim (run_program sender (host.on_conn sub.cb sub.user conn address opened) none s) [
        | none ↦ none
        | some (answer, t) ↦ notify subs t
      ]

-- The part of `dispatchConn` from the snapshot on.
unfoldable pub notify_all : Host → Sender → ℕ → Bool → List ConnSub → State → Option State
notify_all host sender conn opened [] s = some s
notify_all host sender conn opened (sub ∷ subs) s =
    let (address, t) = address_of conn (host.get_ip_and_port conn) s in
    notify host sender conn address opened (sub ∷ subs) t

-- `dispatchConn`
unfoldable pub dispatch_conn : Host → Sender → ℕ → Bool → State → Option State
dispatch_conn host sender conn opened s =
    if not s.conn_live then some s else notify_all host sender conn opened s.conn_subs s

-- LeviRsConnOpenHook, with what `origin` answered.
unfoldable pub connection_open : Host → Sender → ℕ → Bool → State → Option State
connection_open host sender conn accepted s =
    if accepted then dispatch_conn host sender conn true s else some s

-- LeviRsConnCloseHook
unfoldable pub connection_close : Host → Sender → ℕ → State → Option State
connection_close host sender conn s = elim (dispatch_conn host sender conn false s) [
  | none ↦ none
  | some t ↦ some (forget_address conn t)
]

-- What happens on the server: its own sends and receives, connections, and what mods do outside any
-- callback.
pub data Event : Type 0 where
  server_sends : ℕ → List ℕ → Option ℕ → Event
  receives : ℕ → List (List ℕ) → Event
  opens : ℕ → Bool → Event
  closes : ℕ → Event
  mod_acts : Program → Event

abbrev pub only_state : {A : Type 0} → Option (A × State) → Option State
only_state none = none
only_state (some (a, t)) = some t

-- Two levels of sends: a send of a callback calls none.
unfoldable pub happen : Host → Event → State → Option State
happen host (server_sends conn bytes expected) s = send host 2 conn bytes expected s
happen host (receives conn queue) s = only_state (receive host (send host 2) conn queue s)
happen host (opens conn accepted) s = connection_open host (send host 2) conn accepted s
happen host (closes conn) s = connection_close host (send host 2) conn s
happen host (mod_acts p) s = only_state (run_program (send host 2) p none s)

unfoldable pub life : Host → List Event → State → Option State
life host [] s = some s
life host (e ∷ events) s = elim (happen host e s) [ none ↦ none | some t ↦ life host events t ]
