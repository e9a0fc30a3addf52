-- ===== src/Packets/Codec.antt =====
-- src/bridge/net/PacketHooks.cpp: the header of a packet, a number in groups of seven bits. A byte is
-- a number below 256; an int32_t is given by its 32 bits.
use levilamina_rust_loader.Base.{
  ℕ, zero, suc, ◌+◌, ◌*◌, ◌/◌, ◌%◌, ◌^◌, Option, none, some, List, [], ◌∷◌, ltb, leb, if◌then◌else◌,
}

-- `readUVarInt` from a position on, with the shift and the result so far: the value and the position
-- behind it. The bits that `|=` adds are none that the result has, so that it is a sum.
unfoldable pub read_uvarint : ℕ → ℕ → ℕ → List ℕ → Option (ℕ × ℕ)
read_uvarint shift result pos [] = none
read_uvarint shift result pos (b ∷ bs) =
    let now = result + (b % 128 * 2 ^ shift) % 2 ^ 32 in
    let rest = read_uvarint (shift + 7) now (pos + 1) bs in
    if ltb b 128 then some (now, pos + 1) else if leb 35 (shift + 7) then none else rest

-- `writeUVarInt`, with a bound on the bytes; none where it is too small.
unfoldable pub write_uvarint : ℕ → ℕ → Option (List ℕ)
write_uvarint zero value = none
write_uvarint (suc fuel) value =
    let rest = write_uvarint fuel (value / 128) in
    if leb 128 value
    then elim rest [ none ↦ none | some bytes ↦ some ((value % 128 + 128) ∷ bytes) ]
    else some (value ∷ [])

pub record Header : Type 0 where
  pub raw : ℕ
  pub packet_id : ℕ
  pub sender_sub_id : ℕ
  pub target_sub_id : ℕ
  pub size : ℕ

-- LeviRsPacketEdit, less its size, which is a constant.
pub record PacketEdit : Type 0 where
  pub packet_id : ℕ
  pub sender_sub_id : ℕ
  pub target_sub_id : ℕ

-- `decodeHeader`
unfoldable pub decode_header : List ℕ → Option Header
decode_header packet = elim (read_uvarint 0 0 0 packet) [
  | none ↦ none
  | some (raw, pos) ↦ some (record {
    raw = raw;
    packet_id = raw % 2 ^ 10;
    sender_sub_id = raw / 2 ^ 10 % 4;
    target_sub_id = raw / 2 ^ 12 % 4;
    size = pos;
  })
]

-- The number that `encodeHeader` writes: its three parts share no bit, so that `|` is a sum.
unfoldable pub raw_header : PacketEdit → ℕ
raw_header edit =
    edit.packet_id % 2 ^ 10 + edit.sender_sub_id % 4 * 2 ^ 10 + edit.target_sub_id % 4 * 2 ^ 12

-- `encodeHeader`; a number of 32 bits has five groups at most.
unfoldable pub encode_header : PacketEdit → List ℕ
encode_header edit = elim (write_uvarint 5 (raw_header edit)) [ none ↦ [] | some bytes ↦ bytes ]
