-- ===== src/Tests/Codec.antt =====
-- A self-delimiting encoding of WAL contents as numbers, which takes the place of bitcode in tests.
use iedb_agent.Base.{
  ℕ, zero, suc, ◌%◌, ◌^◌, ◌≡◌, ◌≢◌, refl, true, false, length, List, [], ◌∷◌, Option, none, some,
  arith,
}
use iedb_agent.Base.Int.{ℤ, pos, negsuc}
use iedb_agent.Base.Text.{Str, Bytes}
use iedb_agent.Buffer.Schema.{FieldValue}
use iedb_agent.Buffer.Chunk.{Row}
use iedb_agent.Tests.Data.{contents}
use iedb_agent.Wal.{WriteBatch, WalOp, write, noop, WalContents}
use iedb_agent.Wal.Serialize.{Codec, IsCodec, Decoded, ok, err, undecodable}

-- How a value is put in front of some bytes, and taken off again.
record Format (A : Type 0) : Type 0 where
  put : A → Bytes → Bytes
  get : Bytes → Option (A × Bytes)
  back : (a : A) (rest : Bytes) → get (put a rest) ≡ some (a, rest)

get_nat : Bytes → Option (ℕ × Bytes)
get_nat [] = none
get_nat (n ∷ rest) = some (n, rest)

abbrev nat_format : Format ℕ
unfolding get_nat
nat_format = record { put = λ n rest. n ∷ rest; get = get_nat; back = λ n rest. refl }

abbrev after_get : {A B : Type 0} → (A → B) → Option (A × Bytes) → Option (B × Bytes)
after_get f none = none
after_get f (some (a, rest)) = some (f a, rest)

abbrev then_get :
    {A B : Type 0} → (Bytes → Option (B × Bytes)) → Option (A × Bytes) → Option ((A × B) × Bytes)
then_get get none = none
then_get get (some (a, rest)) = after_get (λ b. (a, b)) (get rest)

-- A format along a map with a left inverse, of pairs, and of lists with their length in front.
abbrev via : {A B : Type 0} (f : A → B) (g : B → A) → ((b : B) → f (g b) ≡ b) → Format A → Format B
via f g inverse fa = record {
  put = λ b rest. fa.put (g b) rest;
  get = λ bytes. after_get f (fa.get bytes);
  back = λ b rest. rw (fa.back (g b) rest, inverse b) refl;
}

abbrev pair : {A B : Type 0} → Format A → Format B → Format (A × B)
pair fa fb = record {
  put = λ p rest. fa.put p.0 (fb.put p.1 rest);
  get = λ bytes. then_get fb.get (fa.get bytes);
  back = λ p rest. rw (fa.back p.0 (fb.put p.1 rest), fb.back p.1 rest) refl;
}

module _ {A : Type 0} (fa : Format A) where
  put_all : List A → Bytes → Bytes
  put_all [] rest = rest
  put_all (a ∷ xs) rest = fa.put a (put_all xs rest)

  abbrev cons_from :
      (Bytes → Option (List A × Bytes)) → Option (A × Bytes) → Option (List A × Bytes)
  cons_from get none = none
  cons_from get (some (a, rest)) = after_get (λ xs. a ∷ xs) (get rest)

  get_all : ℕ → Bytes → Option (List A × Bytes)
  get_all zero bytes = some ([], bytes)
  get_all (suc n) bytes = cons_from (get_all n) (fa.get bytes)

  get_all-put_all :
      (xs : List A) (rest : Bytes) → get_all (length xs) (put_all xs rest) ≡ some (xs, rest)
  unfolding get_all put_all
  get_all-put_all [] rest = refl
  get_all-put_all (a ∷ xs) rest = rw (fa.back a (put_all xs rest), get_all-put_all xs rest) refl

  get_list : Bytes → Option (List A × Bytes)
  unfolding get_all
  get_list [] = none
  get_list (n ∷ rest) = get_all n rest

  abbrev list : Format (List A)
  unfolding get_list put_all
  list = record {
    put = λ xs rest. length xs ∷ put_all xs rest;
    get = get_list;
    back = get_all-put_all;
  }

int_of : ℕ × ℕ → ℤ
int_of (zero, n) = pos n
int_of (suc _, n) = negsuc n

abbrev parts_of : ℤ → ℕ × ℕ
parts_of (pos n) = (0, n)
parts_of (negsuc n) = (1, n)

int_of-parts_of : (z : ℤ) → int_of (parts_of z) ≡ z
unfolding int_of
int_of-parts_of (pos n) = refl
int_of-parts_of (negsuc n) = refl

abbrev option_of : {A : Type 0} → List A → Option A
option_of [] = none
option_of (a ∷ _) = some a

abbrev list_of : {A : Type 0} → Option A → List A
list_of none = []
list_of (some a) = a ∷ []

option_of-list_of : {A : Type 0} (o : Option A) → option_of (list_of o) ≡ o
option_of-list_of none = refl
option_of-list_of (some a) = refl

magnitude : ℤ → ℕ
magnitude (pos n) = n
magnitude (negsuc n) = n

-- A field value as a tag, a number and a text.
value_of : ℕ × (ℤ × Str) → FieldValue
unfolding magnitude
value_of (zero, (z, s)) = FieldValue.i64 z
value_of (suc zero, (z, s)) = FieldValue.f64 (magnitude z)
value_of (suc (suc zero), (z, s)) = FieldValue.u64 (magnitude z)
value_of (suc (suc (suc zero)), (z, s)) = FieldValue.bool false
value_of (suc (suc (suc (suc zero))), (z, s)) = FieldValue.bool true
value_of (suc (suc (suc (suc (suc _)))), (z, s)) = FieldValue.string s

abbrev tagged : FieldValue → ℕ × (ℤ × Str)
tagged (FieldValue.i64 z) = (0, (z, []))
tagged (FieldValue.f64 n) = (1, (pos n, []))
tagged (FieldValue.u64 n) = (2, (pos n, []))
tagged (FieldValue.bool false) = (3, (pos 0, []))
tagged (FieldValue.bool true) = (4, (pos 0, []))
tagged (FieldValue.string s) = (5, (pos 0, s))

value_of-tagged : (v : FieldValue) → value_of (tagged v) ≡ v
unfolding value_of
value_of-tagged (FieldValue.i64 z) = refl
value_of-tagged (FieldValue.f64 n) = refl
value_of-tagged (FieldValue.u64 n) = refl
value_of-tagged (FieldValue.bool false) = refl
value_of-tagged (FieldValue.bool true) = refl
value_of-tagged (FieldValue.string s) = refl

abbrev int_format : Format ℤ
unfolding int_of
int_format = via int_of parts_of int_of-parts_of (pair nat_format nat_format)

abbrev text_format : Format Str
text_format = list nat_format

abbrev value_format : Format FieldValue
unfolding value_of
value_format = via value_of tagged value_of-tagged (pair nat_format (pair int_format text_format))

abbrev option : {A : Type 0} → Format A → Format (Option A)
option fa = via option_of list_of option_of-list_of (list fa)

abbrev row_format : Format Row
row_format =
    via (λ p. record { time = p.0; tag_values = p.1.0; field_values = p.1.1 })
      (λ r. (r.time, (r.tag_values, r.field_values))) (λ r. refl)
      (pair int_format (pair (list text_format) (list (option value_format))))

abbrev batch_format : Format WriteBatch
batch_format =
    via
      (λ p. record {
        db_name = p.0;
        table_name = p.1.0;
        chunk_time = p.1.1.0;
        field_names = p.1.1.1.0;
        tag_keys = p.1.1.1.1.0;
        rows = p.1.1.1.1.1;
      })
      (λ b. (b.db_name, (b.table_name, (b.chunk_time, (b.field_names, (b.tag_keys, b.rows))))))
      (λ b. refl)
      (pair text_format (
        pair text_format
          (pair int_format (pair (list text_format) (pair (list text_format) (list row_format))))))

abbrev op_of : Option WriteBatch → WalOp
op_of none = noop
op_of (some b) = write b

abbrev batch_in : WalOp → Option WriteBatch
batch_in (write b) = some b
batch_in noop = none

op_of-batch_in : (op : WalOp) → op_of (batch_in op) ≡ op
op_of-batch_in (write b) = refl
op_of-batch_in noop = refl

-- The operations and the time; the file's number stands in front of them.
abbrev rest_format : Format (List WalOp × ℤ)
rest_format = pair (list (via op_of batch_in op_of-batch_in (option batch_format))) int_format

abbrev decoded : ℕ → Option ((List WalOp × ℤ) × Bytes) → Decoded WalContents
decoded n none = err (undecodable [])
decoded n (some ((ops, ms), _)) =
    ok (record { wal_file_number = n; ops = ops; persist_timestamp_ms = ms })

abbrev head_or_zero : Bytes → ℕ
head_or_zero [] = 0
head_or_zero (n ∷ _) = n

serialize : WalContents → Bytes
serialize contents =
    contents.wal_file_number ∷ rest_format.put (contents.ops, contents.persist_timestamp_ms) []

deserialize : Bytes → Decoded WalContents
deserialize [] = err (undecodable [])
deserialize (n ∷ bytes) = decoded n (rest_format.get bytes)

deserialize_lem : (c : WalContents) → deserialize (serialize c) ≡ ok c
unfolding serialize deserialize
deserialize_lem c = rw (rest_format.back (c.ops, c.persist_timestamp_ms) []) refl

-- The checksum is the first number, cut to 32 bits.
pub test_codec : Codec
unfolding serialize deserialize
test_codec = record {
  serialize = serialize;
  deserialize = deserialize;
  hash = λ bytes. head_or_zero bytes % 2 ^ 32;
}

pub test_codec-IsCodec : IsCodec test_codec
unfolding test_codec
test_codec-IsCodec = record { round_trip = deserialize_lem; hash_bound = λ bytes. omega arith }

-- An empty payload has another checksum than the contents have.
pub test_hash-nil : test_codec.hash [] ≢ test_codec.hash (test_codec.serialize contents)
unfolding test_codec serialize
test_hash-nil = λ e. omega (arith, e)
