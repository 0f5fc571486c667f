-- ===== src/Wal/Serialize/Sound.antt =====
-- wal/serialize.rs: which byte strings are read as contents.
use iedb_agent.Base.{
  ℕ, suc, zero, ◌+◌, ◌-◌, ◌*◌, ◌/◌, ◌%◌, ◌≤◌, ◌<◌, ◌≡◌, ◌↔◌, refl, sym, ap, ◌∙◌, [], ◌∷◌, ◌++◌,
  arith, length, take, drop, All,
}
use iedb_agent.Base.Text.{Bytes, str_eq_iff}
use iedb_agent.Wal.{WalContents}
use iedb_agent.Wal.Serialize.{
  Codec, IsCodec, ok, file_type_identifier, to_le_bytes, from_le_bytes, deserialize_from_file,
  deserialize_framed,
}

take-drop : (n : ℕ) (xs : Bytes) → take n xs ++ drop n xs ≡ xs
take-drop zero xs = refl
take-drop (suc n) [] = refl
take-drop (suc n) (x ∷ xs) = ap (λ rest. x ∷ rest) (take-drop n xs)

drop-nil : (n : ℕ) → drop {A = ℕ} n [] ≡ []
drop-nil zero = refl
drop-nil (suc n) = refl

drop-drop : (n m : ℕ) (xs : Bytes) → drop m (drop n xs) ≡ drop (n + m) xs
drop-drop zero m xs = let e : 0 + m ≡ m = omega arith in rw e refl
drop-drop (suc n) m [] = let e : suc n + m ≡ suc (n + m) = omega arith in rw (e, drop-nil m) refl
drop-drop (suc n) m (x ∷ xs) =
    let e : suc n + m ≡ suc (n + m) = omega arith in rw e (drop-drop n m xs)

length-drop : (n : ℕ) (xs : Bytes) → length (drop n xs) ≡ length xs - n
length-drop zero xs = omega arith
length-drop (suc n) [] = omega arith
length-drop (suc n) (x ∷ xs) = omega (arith, length-drop n xs)

drop-small : (n : ℕ) (xs : Bytes) → All (λ b. b < 256) xs → All (λ b. b < 256) (drop n xs)
drop-small zero xs h = h
drop-small (suc n) [] h = tt
drop-small (suc n) (x ∷ xs) h = drop-small n xs h.1

-- Four bytes are those of the number that they give.
to_le_bytes-from_le_bytes :
    (xs : Bytes)
    → 4 ≤ length xs
    → All (λ b. b < 256) xs
    → to_le_bytes (from_le_bytes (take 4 xs)) ≡ take 4 xs
unfolding to_le_bytes from_le_bytes
to_le_bytes-from_le_bytes [] h small = absurd (omega arith)
to_le_bytes-from_le_bytes (a ∷ []) h small = absurd (omega arith)
to_le_bytes-from_le_bytes (a ∷ b ∷ []) h small = absurd (omega arith)
to_le_bytes-from_le_bytes (a ∷ b ∷ c ∷ []) h small = absurd (omega arith)
to_le_bytes-from_le_bytes (a ∷ b ∷ c ∷ d ∷ rest) h small =
    let n = a + b * 256 + c * 65536 + d * 16777216 in
    let e0 : n % 256 ≡ a = omega (arith, small.0, small.1.0) in
    let e1 : n / 256 % 256 ≡ b = omega (arith, small.0, small.1.0, small.1.1.0) in
    let e2 : n / 65536 % 256 ≡ c = omega (arith, small.0, small.1.0, small.1.1.0) in
    let e3 : n / 16777216 % 256 ≡ d =
      omega (arith, small.0, small.1.0, small.1.1.0, small.1.1.1.0) in
    rw (e0, e1, e2, e3) refl

module _ (codec : Codec) where
  -- The guards that contents have passed.
  guards :
      (bytes : Bytes) (contents : WalContents)
      → deserialize_from_file codec bytes ≡ ok contents
      → (12 ≤ length bytes)
        × (take 8 bytes ≡ file_type_identifier)
        × (from_le_bytes (take 4 (drop 8 bytes)) ≡ codec.hash (drop 12 bytes))
        × (codec.deserialize (drop 12 bytes) ≡ ok contents)
  unfolding deserialize_from_file
  guards bytes contents h = ground (arith, str_eq_iff (take 8 bytes) file_type_identifier)

  framed :
      (bytes : Bytes) (contents : WalContents)
      → All (λ b. b < 256) bytes
      → deserialize_from_file codec bytes ≡ ok contents
      → let payload = drop 12 bytes in
        (bytes ≡ file_type_identifier ++ (to_le_bytes (codec.hash payload) ++ payload))
        × (codec.deserialize payload ≡ ok contents)
  framed bytes contents small h =
      let (long, id, crc, content) = guards bytes contents h in
      let rest = drop 8 bytes in
      let four : to_le_bytes (codec.hash (drop 12 bytes)) ≡ take 4 rest =
        ap to_le_bytes (sym crc)
        ∙ to_le_bytes-from_le_bytes rest (omega (arith, long, length-drop 8 bytes))
            (drop-small 8 bytes small) in
      let crc_bytes = to_le_bytes (codec.hash (drop 12 bytes)) in
      let tail : rest ≡ crc_bytes ++ drop 12 bytes =
        sym (take-drop 4 rest)
        ∙ ap (λ l. l ++ drop 4 rest) (sym four)
        ∙ ap (λ l. crc_bytes ++ l) (drop-drop 8 4 bytes) in
      (
        sym (take-drop 8 bytes) ∙ ap (λ l. l ++ rest) id ∙ ap (λ l. file_type_identifier ++ l) tail,
        content,
      )

  -- For a codec that round-trips with 32-bit checksums, a string of bytes is read as some contents exactly if it is the
  -- identifier, then the checksum of some payload in little-endian order, then that payload, and the
  -- payload decodes to the contents.
  pub deserialize_sound :
      (bytes : Bytes) (contents : WalContents)
      → IsCodec codec
      → All (λ b. b < 256) bytes
      → (deserialize_from_file codec bytes ≡ ok contents) ↔ (
          (payload : Bytes) × (bytes
            ≡ file_type_identifier ++ (to_le_bytes (codec.hash payload) ++ payload))
          × (codec.deserialize payload ≡ ok contents))
  deserialize_sound bytes contents laws small = (
    (λ h. let (e, content) = framed bytes contents small h in (drop 12 bytes, e, content)),
    (λ (payload, e, h).
        rw (e, deserialize_framed codec (codec.hash payload) payload (laws.hash_bound payload), h)
          (ground arith)),
  )
