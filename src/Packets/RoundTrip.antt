-- ===== src/Packets/RoundTrip.antt =====
-- src/bridge/net/PacketHooks.cpp: a header that was written is read back.
use levilamina_rust_loader.Base.{
  ℕ, zero, suc, ◌+◌, ◌*◌, ◌/◌, ◌%◌, ◌^◌, ◌≤◌, ◌<◌, ◌≡◌, refl, ap, ◌∙◌, some, List, [], ◌∷◌, ◌++◌,
  leb, arith, length, Bool-cases, inl, inr,
}
use native.Mathlib.Numerals.{towards_suc}
use levilamina_rust_loader.Packets.Dispatch.{drop_bytes}
use levilamina_rust_loader.Packets.Codec.{
  read_uvarint, write_uvarint, Header, PacketEdit, decode_header, raw_header, encode_header,
}

split_weight : (v w : ℕ) → (v * w ≡ v % 128 * w + v / 128 * (128 * w)) × (v % 128 * w ≤ v * w)
split_weight v w =
    let e : v * w ≡ (v % 128 + v / 128 * 128) * w = ap (λ x. x * w) (omega arith) in
    let f : (v % 128 + v / 128 * 128) * w ≡ v % 128 * w + v / 128 * (128 * w) = omega arith in
    (e ∙ f, omega (arith, e ∙ f))

next_power : (shift : ℕ) → 128 * 2 ^ shift ≡ 2 ^ (shift + 7)
next_power shift = simp towards_suc (omega arith)

read-write :
    (fuel shift weight v result pos : ℕ) (rest : List ℕ)
    → shift + 7 * fuel ≡ 28
    → weight ≡ 2 ^ shift
    → v * weight < 2 ^ 32
    → (bytes : List ℕ) × (write_uvarint (suc fuel) v ≡ some bytes)
      × (read_uvarint shift result pos (bytes ++ rest)
          ≡ some (result + v * weight, pos + length bytes))
      × (length bytes ≤ suc fuel)
unfolding read_uvarint write_uvarint
read-write zero shift weight v result pos rest e w fits =
    let s28 : shift ≡ 28 = omega arith in
    let w28 : weight ≡ 268435456 = w ∙ ap (λ x. 2 ^ x) s28 in
    let small : v < 16 = omega (arith, rw w28 at fits) in
    let power : 2 ^ shift ≡ 268435456 = ap (λ x. 2 ^ x) s28 in
    (v ∷ [], ground arith, rw (w28, power) (ground arith), omega arith)
read-write (suc fuel) shift weight v result pos rest e w fits =
    let (total, part) = split_weight v weight in
    let last : (v % 128 * weight) % 2 ^ 32 ≡ v % 128 * weight = omega arith in
    elim (Bool-cases (leb 128 v)) [
      | inr f ↦ (v ∷ [], rw f refl, ground arith, omega arith)
      | inl f ↦
          let (bytes, wrote, reads, short) =
            read-write fuel (shift + 7) (128 * weight) (v / 128) (result + v % 128 * weight)
              (pos + 1) rest (omega arith) (rw w (next_power shift)) (omega arith) in
          ((v % 128 + 128) ∷ bytes, ground arith, ground arith, omega arith)
    ]

pub drop_bytes-append : (bytes rest : List ℕ) → drop_bytes (length bytes) (bytes ++ rest) ≡ rest
drop_bytes-append [] rest = refl
drop_bytes-append (b ∷ bytes) rest = drop_bytes-append bytes rest

-- What `decodeHeader` makes of a number that takes so many bytes.
abbrev pub header_of : ℕ → ℕ → Header
header_of raw size = record {
  raw = raw;
  packet_id = raw % 2 ^ 10;
  sender_sub_id = raw / 2 ^ 10 % 4;
  target_sub_id = raw / 2 ^ 12 % 4;
  size = size;
}

-- `writeUVarInt` ends on every number of 32 bits, with five bytes at most, and `readUVarInt` reads
-- them back, whatever follows, up to their end and no further.
pub read-write_uvarint :
    (v : ℕ) (rest : List ℕ)
    → v < 2 ^ 32
    → (bytes : List ℕ) × (write_uvarint 5 v ≡ some bytes)
      × (read_uvarint 0 0 0 (bytes ++ rest) ≡ some (v, length bytes))
      × (length bytes ≤ 5)
read-write_uvarint v rest h =
    let (bytes, wrote, reads, short) =
      read-write 4 0 1 v 0 0 rest (omega arith) (omega arith) (omega arith) in
    (bytes, wrote, reads ∙ ground arith, short)

pub read-encoded :
    (edit : PacketEdit) (body : List ℕ)
    → (bytes : List ℕ) × (encode_header edit ≡ bytes)
      × (decode_header (bytes ++ body) ≡ some (header_of (raw_header edit) (length bytes)))
      × (length bytes ≤ 5)
unfolding encode_header decode_header
read-encoded edit body =
    let (bytes, wrote, reads, short) =
      read-write_uvarint (raw_header edit) body (unfold raw_header in omega arith) in
    (bytes, rw (encode_header, wrote) refl, rw (decode_header, reads) refl, short)

-- A header that `encodeHeader` wrote in front of a body, whatever the fields were: `decodeHeader`
-- reads the packet's number as its lowest ten bits and the two sub-ids as their lowest two bits, and
-- finds the body behind it, untouched; the header has five bytes at most.
pub decode-encode :
    (edit : PacketEdit) (body : List ℕ)
    → let header = encode_header edit in
      (h : Header) × (decode_header (header ++ body) ≡ some h)
      × (h.packet_id ≡ edit.packet_id % 2 ^ 10)
      × (h.sender_sub_id ≡ edit.sender_sub_id % 4)
      × (h.target_sub_id ≡ edit.target_sub_id % 4)
      × (drop_bytes h.size (header ++ body) ≡ body)
      × (h.size ≤ 5)
decode-encode edit body =
    let (bytes, wrote, reads, short) = read-encoded edit body in
    rw wrote (
      header_of (raw_header edit) (length bytes),
      reads,
      unfold raw_header in omega arith,
      unfold raw_header in omega arith,
      unfold raw_header in omega arith,
      drop_bytes-append bytes body,
      short,
    )
