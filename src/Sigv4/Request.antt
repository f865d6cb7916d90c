-- ===== src/Sigv4/Request.antt =====
-- internal/sigv4/sigv4.go: what is read of a request and what the verification calls. A request is
-- what Go's packages net/http and net/url give of it, and a time is a number of nanoseconds.
use kavo.Base.{ℕ, Option, List, [], ◌∷◌, ◌++◌, Bytes, text}

-- ErrMissingSignature, ErrMalformed, ErrMissingDate, ErrUnknownKey, ErrMismatch and ErrSkew
pub data SigError : Type 0 where
  missing_signature malformed missing_date unknown_key mismatch skew : SigError

abbrev pub max_skew : ℕ
max_skew = 900000000000

abbrev pub algorithm : Bytes
algorithm = text "AWS4-HMAC-SHA256"

abbrev pub unsigned : Bytes
unsigned = text "UNSIGNED-PAYLOAD"

abbrev pub streaming : Bytes
streaming = text "STREAMING-AWS4-HMAC-SHA256-PAYLOAD"

abbrev pub streaming_trl : Bytes
streaming_trl = text "STREAMING-AWS4-HMAC-SHA256-PAYLOAD-TRAILER"

abbrev pub unsigned_trl : Bytes
unsigned_trl = text "STREAMING-UNSIGNED-PAYLOAD-TRAILER"

pub record Credentials : Type 0 where
  pub access_key : Bytes
  pub secret_key : Bytes

-- authorization
pub record Authorization : Type 0 where
  pub access_key : Bytes
  pub date : Bytes
  pub region : Bytes
  pub service : Bytes
  pub signed_headers : List Bytes
  pub signature : Bytes

-- What is read of a request: the headers by their canonical names, the query as url.Values in some
-- order, and a content length that is `none` where it is negative
pub record Request : Type 0 where
  pub method : Bytes
  pub host : Bytes
  pub escaped_path : Bytes
  pub query : List (Bytes × List Bytes)
  pub headers : List (Bytes × List Bytes)
  pub content_length : Option ℕ

-- Of the packages crypto/hmac, crypto/sha256, encoding/hex, net/http and time: HMAC-SHA256, SHA-256,
-- hexadecimal digits and back, a header's canonical name, http.ParseTime, time.Parse and the Format
-- of a time in UTC with a layout, and a number in decimal digits
pub record Library : Type 0 where
  pub hmac_sha256 : Bytes → Bytes → Bytes
  pub sha256 : Bytes → Bytes
  pub hex : Bytes → Bytes
  pub hex_decode : Bytes → Option Bytes
  pub canonical_key : Bytes → Bytes
  pub parse_time : Bytes → Option ℕ
  pub time_parse : Bytes → Bytes → Option ℕ
  pub format_time : Bytes → ℕ → Bytes
  pub format_int : ℕ → Bytes

-- strings.Join
unfoldable pub join : List Bytes → Bytes → Bytes
join [] sep = []
join (x ∷ []) sep = x
join (x ∷ y ∷ xs) sep = x ++ sep ++ join (y ∷ xs) sep

-- scope
abbrev pub scope : Authorization → Bytes
scope a = join (a.date ∷ a.region ∷ a.service ∷ text "aws4_request" ∷ []) (text "/")
