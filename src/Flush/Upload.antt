-- ===== src/Flush/Upload.antt =====
-- flush/http_upload.rs and flush/s3.rs: where a Parquet file goes.
pub mod Staging
pub mod Retry
pub mod S3
use iedb_agent.Base.{
  ℕ, ◌+◌, ◌%◌, ◌^◌, Bool, true, false, ◌&&◌, List, [], ◌∷◌, ◌++◌, Option, none, some, ltb, leb,
  ◌==◌, if◌then◌else◌,
}
use mathlib.Core.List.{reverse}
use iedb_agent.Base.Int.{ℤ, pos, negsuc}
use iedb_agent.Base.Text.{Str, Bytes, codes}
use iedb_agent.Base.Decimal.{decimal}
use iedb_agent.Base.Parse.{fixed_digits, strip_suffix}
use iedb_agent.Config.{Config, S3Config, auth_header}

-- A request to the server, and what comes back: no answer, or a status and a body.
pub record PostRequest : Type 0 where
  pub url : Str
  pub authorization : Option Str
  pub body : Bytes

pub data Answer : Type 0 where
  no_answer : Str → Answer
  answered : ℕ → Str → Answer

pub data UploadError : Type 0 where
  http : Str → UploadError
  server_error : ℕ → Str → UploadError

-- `Display` of `UploadError`.
unfoldable pub upload_error_text : UploadError → Str
unfolding decimal
upload_error_text (http e) = codes "HTTP error: " ++ e
upload_error_text (server_error status body) =
    codes "server error " ++ (decimal status ++ (codes ": " ++ body))

abbrev pub is_success : ℕ → Bool
is_success status = leb 200 status && ltb status 300

drop_slashes : Str → Str
drop_slashes [] = []
drop_slashes (c ∷ s) = let rest = drop_slashes s in if c == b'/' then rest else c ∷ s

-- `trim_end_matches('/')`
unfoldable pub trim_end_slashes : Str → Str
unfolding drop_slashes
trim_end_slashes url = reverse (drop_slashes (reverse url))

-- `urlencoding` is `form_urlencoded::byte_serialize`, a parameter.
unfoldable pub ingest_url : (Str → Str) → Str → Str → Str → Str
ingest_url urlencoding base db table =
    base
    ++ (codes "/api/v1/ingest/parquet?db="
        ++ (urlencoding db ++ (codes "&measurement=" ++ urlencoding table)))

unfoldable pub upload_request : (Str → Str) → Str → Str → Str → Bytes → Option Str → PostRequest
unfolding ingest_url trim_end_slashes
upload_request urlencoding url db table bytes auth = record {
  url = ingest_url urlencoding (trim_end_slashes url) db table;
  authorization = auth;
  body = bytes;
}

-- `upload_parquet`, by the answer that its request gets.
unfoldable pub upload_parquet : Answer → Option UploadError
upload_parquet (no_answer e) = some (http e)
upload_parquet (answered status body) =
    if is_success status then none else some (server_error status body)

-- `chrono`'s rendering of a time: year, month, day, hour, and %Y%m%d_%H%M%S.
pub record Rendered : Type 0 where
  pub year : Str
  pub month : Str
  pub day : Str
  pub hour : Str
  pub stamp : Str

-- `{:09}` of the remainder, whose sign is that of the time.
nanos_text : ℤ → Str
unfolding fixed_digits
nanos_text (pos n) = fixed_digits 9 (n % 1000000000)
nanos_text (negsuc n) =
    let r = (n + 1) % 1000000000 in
    if r == 0
    then fixed_digits 9 0
    else b'-' ∷ (if ltb r (10 ^ 8) then fixed_digits 8 r else fixed_digits 9 r)

unfoldable pub s3_key : (ℤ → Rendered) → Str → Str → Str → ℤ → Str
unfolding nanos_text
s3_key render agent_id db table ts_nanos =
    let d = render ts_nanos in
    db
    ++ (b'/' ∷ table
        ++ (b'/' ∷ d.year
            ++ (b'/' ∷ d.month
                ++ (b'/' ∷ d.day
                    ++ (b'/' ∷ d.hour
                        ++ (b'/' ∷ agent_id
                            ++ (b'_' ∷ d.stamp
                                ++ (b'_' ∷ nanos_text ts_nanos ++ codes ".parquet"))))))))

unfoldable pub s3_uri : S3Config → Str → Str
s3_uri config key =
    codes "https://"
    ++ (config.bucket
        ++ (codes ".s3." ++ (config.region ++ (codes ".amazonaws.com" ++ (b'/' ∷ key)))))

-- `upload_to_s3`, by the answer to its signed request; a failure to sign is no answer.
unfoldable pub upload_to_s3 : Answer → Option UploadError
upload_to_s3 (no_answer e) = some (http e)
upload_to_s3 (answered status body) =
    if is_success status then none else some (server_error status body)
