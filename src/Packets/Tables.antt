-- ===== src/Packets/Tables.antt =====
-- src/bridge/net/PacketHooks.cpp: the registry of interceptors, its gates, and the operations that
-- run no callback.
use levilamina_rust_loader.Base.{
  ℕ, ◌/◌, ◌%◌, String, Bool, true, false, not, ◌||◌, Option, none, some, List, [], ◌∷◌, ◌++◌,
  if◌then◌else◌, ◌==◌, nat_eq,
}
use levilamina_rust_loader.Base.Assoc.{find, put, erase}

-- LEVI_RS_PKT_INBOUND and LEVI_RS_PKT_OUTBOUND.
pub data Direction : Type 0 where
  inbound outbound : Direction

-- An interceptor; `handle` is the address of the object. A callback is an address, 0 is null. A mask
-- is given by its 32 bits.
pub record PacketSub : Type 0 where
  pub handle : ℕ
  pub mod_ptr : ℕ
  pub dir_mask : ℕ
  pub cb : ℕ
  pub user : ℕ

pub record ConnSub : Type 0 where
  pub handle : ℕ
  pub mod_ptr : ℕ
  pub cb : ℕ
  pub user : ℕ

-- A call of an interceptor: at what depth, in which direction.
pub record Call : Type 0 where
  pub sub : PacketSub
  pub direction : Direction
  pub depth : ℕ

-- What goes out on a connection.
abbrev pub Sent : Type 0
Sent = ℕ × List ℕ

-- `addresses` is the cache by connection, `depth` the guard of the one thread that the hooks run on
-- here. `handed` lists what the server's own send was given, `called` the calls of interceptors, the
-- latest first.
pub record State : Type 0 where
  pub packet_subs : List PacketSub
  pub conn_subs : List ConnSub
  pub inbound_live : Bool
  pub outbound_live : Bool
  pub conn_live : Bool
  pub addresses : List (ℕ × String)
  pub depth : ℕ
  pub handed : List Sent
  pub called : List Call

abbrev pub init : State
init = record {
  packet_subs = [];
  conn_subs = [];
  inbound_live = false;
  outbound_live = false;
  conn_live = false;
  addresses = [];
  depth = 0;
  handed = [];
  called = [];
}

-- `s->dirMask & (1 << direction)`
abbrev pub watches : Direction → PacketSub → Bool
watches inbound sub = sub.dir_mask % 2 == 1
watches outbound sub = sub.dir_mask / 2 % 2 == 1

abbrev pub any_watches : Direction → List PacketSub → Bool
any_watches d [] = false
any_watches d (sub ∷ subs) = watches d sub || any_watches d subs

abbrev pub is_empty : List ConnSub → Bool
is_empty [] = true
is_empty (sub ∷ subs) = false

-- `refreshGatesLocked`
unfoldable pub refresh_gates : State → State
refresh_gates s = record s {
  inbound_live = any_watches inbound s.packet_subs;
  outbound_live = any_watches outbound s.packet_subs;
  conn_live = not (is_empty s.conn_subs);
}

-- `snapshotFor`
unfoldable pub snapshot_for : Direction → List PacketSub → List PacketSub
snapshot_for d [] = []
snapshot_for d (sub ∷ subs) =
    let rest = snapshot_for d subs in if watches d sub then sub ∷ rest else rest

-- `addressOf` a connection, whose address is none where it cannot be told.
unfoldable pub address_of : ℕ → Option String → State → String × State
address_of hash told s = elim (find hash s.addresses) [
  | some address ↦ (address, s)
  | none ↦
      let address : String = elim told [ none ↦ "" | some a ↦ a ] in
      (address, record s { addresses = put hash address s.addresses })
]

-- `forgetAddress`
unfoldable pub forget_address : ℕ → State → State
forget_address hash s = record s { addresses = erase hash s.addresses }

-- `api_packet_hook_register`; the object is made at an address that the allocator gives.
unfoldable pub register : ℕ → ℕ → ℕ → ℕ → ℕ → State → ℕ × State
register handle mod_ptr dir_mask cb user s =
    let sub : PacketSub = record {
      handle = handle;
      mod_ptr = mod_ptr;
      dir_mask = dir_mask;
      cb = cb;
      user = user;
    } in
    if cb == 0
    then (0, s)
    else if not (watches inbound sub || watches outbound sub)
    then (0, s)
    else (handle, refresh_gates (record s { packet_subs = s.packet_subs ++ sub ∷ [] }))

-- The loop of `api_packet_hook_unregister`: the table without the interceptor, or none where it is
-- not there or another mod's.
unfoldable pub drop_sub : ℕ → ℕ → List PacketSub → Option (List PacketSub)
drop_sub mod_ptr target [] = none
drop_sub mod_ptr target (sub ∷ subs) =
    let rest = drop_sub mod_ptr target subs in
    if not (sub.handle == target)
    then elim rest [ none ↦ none | some left ↦ some (sub ∷ left) ]
    else if not (sub.mod_ptr == mod_ptr)
    then none
    else some subs

-- `api_packet_hook_unregister`
unfoldable pub unregister : ℕ → ℕ → State → Bool × State
unregister mod_ptr target s =
    if target == 0 then (false, s) else elim (drop_sub mod_ptr target s.packet_subs) [
      | none ↦ (false, s)
      | some left ↦ (true, refresh_gates (record s { packet_subs = left }))
    ]

-- `api_packet_conn_hook_register`
unfoldable pub conn_register : ℕ → ℕ → ℕ → ℕ → State → ℕ × State
conn_register handle mod_ptr cb user s =
    let sub : ConnSub = record { handle = handle; mod_ptr = mod_ptr; cb = cb; user = user } in
    if cb == 0
    then (0, s)
    else (handle, refresh_gates (record s { conn_subs = s.conn_subs ++ sub ∷ [] }))

-- The loop of `api_packet_conn_hook_unregister`.
unfoldable pub drop_conn : ℕ → ℕ → List ConnSub → Option (List ConnSub)
drop_conn mod_ptr target [] = none
drop_conn mod_ptr target (sub ∷ subs) =
    let rest = drop_conn mod_ptr target subs in
    if not (sub.handle == target)
    then elim rest [ none ↦ none | some left ↦ some (sub ∷ left) ]
    else if not (sub.mod_ptr == mod_ptr)
    then none
    else some subs

-- `api_packet_conn_hook_unregister`
unfoldable pub conn_unregister : ℕ → ℕ → State → Bool × State
conn_unregister mod_ptr target s =
    if target == 0 then (false, s) else elim (drop_conn mod_ptr target s.conn_subs) [
      | none ↦ (false, s)
      | some left ↦ (true, refresh_gates (record s { conn_subs = left }))
    ]

-- The loops of `packetHooksOnRustModGone`.
unfoldable pub without_mod : ℕ → List PacketSub → List PacketSub
without_mod mod_ptr [] = []
without_mod mod_ptr (sub ∷ subs) =
    let rest = without_mod mod_ptr subs in if sub.mod_ptr == mod_ptr then rest else sub ∷ rest

unfoldable pub without_conns : ℕ → List ConnSub → List ConnSub
without_conns mod_ptr [] = []
without_conns mod_ptr (sub ∷ subs) =
    let rest = without_conns mod_ptr subs in if sub.mod_ptr == mod_ptr then rest else sub ∷ rest

-- `packetHooksOnRustModGone`
unfoldable pub on_rust_mod_gone : ℕ → State → State
on_rust_mod_gone mod_ptr s = refresh_gates (record s {
  packet_subs = without_mod mod_ptr s.packet_subs;
  conn_subs = without_conns mod_ptr s.conn_subs;
})
