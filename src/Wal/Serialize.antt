-- ===== src/Wal/Serialize.antt =====
-- wal/serialize.rs: the WAL file format, an identifier, a CRC32 and the encoded contents.
pub mod Sound
use iedb_agent.Base.{
  ℕ, ◌+◌, ◌*◌, ◌/◌, ◌%◌, ◌^◌, ◌<◌, ◌≡◌, ◌≢◌, not, [], ◌∷◌, ◌++◌, arith, length, take, drop, ltb,
  ◌==◌, if◌then◌else◌,
}
use iedb_agent.Base.Text.{Str, Bytes, codes, str_eq, str_eq_iff}
use iedb_agent.Wal.{WalContents}

pub data FileError : Type 0 where
  too_short : FileError
  bad_identifier : FileError
  crc_mismatch : ℕ → ℕ → FileError
  undecodable : Str → FileError

pub data Decoded (A : Type 0) : Type 0 where
  ok : A → Decoded A
  err : FileError → Decoded A

-- `bitcode::serialize` and `deserialize`, and `crc32fast::hash`.
pub record Codec : Type 0 where
  pub serialize : WalContents → Bytes
  pub deserialize : Bytes → Decoded WalContents
  pub hash : Bytes → ℕ

-- What is documented of them: encoding round-trips, and a hash is a `u32`.
pub record IsCodec (codec : Codec) : Type 0 where
  pub round_trip : (c : WalContents) → codec.deserialize (codec.serialize c) ≡ ok c
  pub hash_bound : (b : Bytes) → codec.hash b < 2 ^ 32

abbrev pub file_type_identifier : Bytes
file_type_identifier = codes "iedb.a01"

-- `u32::to_le_bytes`
unfoldable pub to_le_bytes : ℕ → Bytes
to_le_bytes n = n % 256 ∷ n / 256 % 256 ∷ n / 65536 % 256 ∷ n / 16777216 % 256 ∷ []

-- `u32::from_le_bytes`, of the four bytes that a slice holds
unfoldable pub from_le_bytes : Bytes → ℕ
from_le_bytes (a ∷ b ∷ c ∷ d ∷ _) = a + b * 256 + c * 65536 + d * 16777216
from_le_bytes _ = 0

pub from_le_bytes-to_le_bytes :
    (n : ℕ) (rest : Bytes) → n < 2 ^ 32 → from_le_bytes (take 4 (to_le_bytes n ++ rest)) ≡ n
unfolding from_le_bytes to_le_bytes
from_le_bytes-to_le_bytes n rest h = omega arith

module _ (codec : Codec) where
  unfoldable pub serialize_to_file : WalContents → Bytes
  unfolding to_le_bytes
  serialize_to_file contents =
      let payload = codec.serialize contents in
      file_type_identifier ++ (to_le_bytes (codec.hash payload) ++ payload)

  unfoldable pub deserialize_from_file : Bytes → Decoded WalContents
  unfolding from_le_bytes str_eq
  deserialize_from_file bytes =
      if ltb (length bytes) 12
      then err too_short
      else if not (str_eq (take 8 bytes) file_type_identifier)
      then err bad_identifier
      else let stored_crc = from_le_bytes (take 4 (drop 8 bytes)) in
        let payload = drop 12 bytes in
        let actual_crc = codec.hash payload in
        if not (stored_crc == actual_crc)
        then err (crc_mismatch stored_crc actual_crc)
        else codec.deserialize payload

  -- A file with the identifier, a checksum and any payload is read by its checksum alone.
  pub deserialize_framed :
      (crc : ℕ) (payload : Bytes)
      → crc < 2 ^ 32
      → deserialize_from_file (file_type_identifier ++ (to_le_bytes crc ++ payload)) ≡ (
          if crc == codec.hash payload
          then codec.deserialize payload
          else err (crc_mismatch crc (codec.hash payload)))
  unfolding deserialize_from_file
  deserialize_framed crc payload h =
      unfold to_le_bytes in
      let stored : from_le_bytes (take 4 (to_le_bytes crc ++ payload)) ≡ crc =
        from_le_bytes-to_le_bytes crc payload h in
      ground (arith, stored)

  -- For a codec that round-trips with 32-bit checksums, what is written to a WAL file is what is
  -- read from it.
  pub deserialize-serialize :
      (contents : WalContents)
      → IsCodec codec
      → deserialize_from_file (serialize_to_file contents) ≡ ok contents
  unfolding serialize_to_file
  deserialize-serialize contents laws =
      let payload = codec.serialize contents in
      ground (
        arith,
        deserialize_framed (codec.hash payload) payload,
        laws.hash_bound payload,
        laws.round_trip contents,
      )

  -- For a codec that round-trips with 32-bit checksums, a file whose payload was replaced by one of
  -- another checksum is refused, with
  -- both checksums in the error.
  pub corruption_detected :
      (contents : WalContents) (payload : Bytes)
      → IsCodec codec
      → codec.hash payload ≢ codec.hash (codec.serialize contents)
      → let crc = codec.hash (codec.serialize contents) in
        deserialize_from_file (take 12 (serialize_to_file contents) ++ payload)
        ≡ err (crc_mismatch crc (codec.hash payload))
  unfolding serialize_to_file to_le_bytes
  corruption_detected contents payload laws changed = ground (
    arith,
    deserialize_framed (codec.hash (codec.serialize contents)) payload,
    laws.hash_bound (codec.serialize contents),
  )
