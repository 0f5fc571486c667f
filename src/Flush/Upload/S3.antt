-- ===== src/Flush/Upload/S3.antt =====
-- flush/s3.rs: the signed request of `upload_to_s3`.
use iedb_agent.Base.{
  ℕ, ◌≡◌, ◌↔◌, refl, arith, List, [], ◌∷◌, ◌++◌, Option, none, some, Bool-cases, inl, inr,
  if◌then◌else◌,
}
use iedb_agent.Base.Text.{Str, Bytes, codes}
use iedb_agent.Config.{S3Config}
use iedb_agent.Flush.Upload.{Answer, no_answer, answered, is_success, s3_uri, upload_to_s3}

pub record PutRequest : Type 0 where
  pub uri : Str
  pub headers : List (Str × Str)
  pub body : Bytes

pub data Prepared : Type 0 where
  unprepared : Str → Prepared
  prepared : PutRequest → Prepared

-- The AWS libraries and the conversions between request types: an error, or for the signature the
-- headers that it adds.
pub record Signer : Type 0 where
  pub params_error : S3Config → Option Str
  pub signable_error : PutRequest → Option Str
  pub sign : S3Config → PutRequest → List (Str × Str)
  pub sign_error : S3Config → PutRequest → Option Str
  pub build_error : PutRequest → Option Str
  pub convert_error : PutRequest → Option Str

unfoldable pub s3_host : S3Config → Str
s3_host config = config.bucket ++ (codes ".s3." ++ (config.region ++ codes ".amazonaws.com"))

unfoldable pub put_request : S3Config → Str → Bytes → PutRequest
unfolding s3_host s3_uri
put_request config key bytes = record {
  uri = s3_uri config key;
  headers =
      (codes "host", s3_host config)
      ∷ (codes "content-type", codes "application/octet-stream")
      ∷ [];
  body = bytes;
}

-- `map_err(…)?`
abbrev or_error : Str → Option Str → Prepared → Prepared
or_error what none rest = rest
or_error what (some e) rest = unprepared (what ++ e)

-- The parameters, the signable request, the signature, and the request that carries it.
unfoldable pub signed_request : Signer → S3Config → Str → Bytes → Prepared
unfolding put_request
signed_request signer config key bytes =
    let request = put_request config key bytes in
    let signed = record request { headers = request.headers ++ signer.sign config request } in
    or_error (codes "Build signing params: ") (signer.params_error config) (
      or_error (codes "Build signable request: ") (signer.signable_error request) (
        or_error (codes "Sign: ") (signer.sign_error config request) (
          or_error (codes "Build request: ") (signer.build_error request) (
            or_error (codes "Convert to reqwest: ") (signer.convert_error signed)
              (prepared signed)))))

abbrev s3_error : (ℕ → Str) → Answer → Option Str
s3_error status_text (no_answer e) = some (codes "S3 PUT: " ++ e)
s3_error status_text (answered status body) =
    if is_success status
    then none
    else some (codes "S3 error " ++ (status_text status ++ (codes ": " ++ body)))

abbrev pub send_prepared : (ℕ → Str) → (PutRequest → Answer) → Prepared → Option Str
send_prepared status_text server (unprepared e) = some e
send_prepared status_text server (prepared request) = s3_error status_text (server request)

-- `upload_to_s3` whole: its error, if it has one.
unfoldable pub put_to_s3 :
    Signer → (ℕ → Str) → (PutRequest → Answer) → S3Config → Str → Bytes → Option Str
unfolding signed_request
put_to_s3 signer status_text server config key bytes =
    send_prepared status_text server (signed_request signer config key bytes)

-- What the scheduler sees of it: the answer to the signed request, or none with the error.
abbrev pub answer_of : (PutRequest → Answer) → Prepared → Answer
answer_of server (unprepared e) = no_answer e
answer_of server (prepared request) = server request

-- The error is there exactly if the decision by the answer has one.
pub put_to_s3-upload_to_s3 :
    (signer : Signer) (status_text : ℕ → Str) (server : PutRequest → Answer) (config : S3Config)
    (key : Str) (bytes : Bytes)
    → let sent = answer_of server (signed_request signer config key bytes) in
      (put_to_s3 signer status_text server config key bytes ≡ none) ↔ (upload_to_s3 sent ≡ none)
unfolding put_to_s3 upload_to_s3
put_to_s3-upload_to_s3 signer status_text server config key bytes =
    at (signed_request signer config key bytes)
  where
    by_answer : (a : Answer) → (s3_error status_text a ≡ none) ↔ (upload_to_s3 a ≡ none)
    by_answer (no_answer e) = ((λ h. ground (arith, h)), (λ h. ground (arith, h)))
    by_answer (answered status body) = elim (Bool-cases (is_success status)) [
      | inl good ↦ ((λ h. rw good refl), (λ h. rw good refl))
      | inr bad ↦ ((λ h. ground (arith, h, bad)), (λ h. ground (arith, h, bad)))
    ]

    at :
        (p : Prepared)
        → (send_prepared status_text server p ≡ none) ↔ (upload_to_s3 (answer_of server p) ≡ none)
    at (unprepared e) = ((λ h. ground (arith, h)), (λ h. ground (arith, h)))
    at (prepared request) = by_answer (server request)
