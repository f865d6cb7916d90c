-- ===== src/Sigv4/Tests.antt =====
-- internal/sigv4/sigv4.go: a request that is accepted.
use kavo.Base.{
  ℕ, ◌≡◌, refl, none, some, [], ◌∷◌, take, length, Bytes, text, same, has, cut, cut_prefix, split,
  trim_space, trim_left, trim_right, ok,
}
use kavo.Sigv4.Request.{Credentials, Authorization, Request, Library, join}
use kavo.Sigv4.Authorization.{read_parts, authorize, parse_authorization}
use kavo.Sigv4.Canonical.{
  values_of, uri_encode, query_pairs, canonical_query, canonical_path, header_value, header_lines,
  canonical_request, string_to_sign, signing_key, sign,
}
use kavo.Sigv4.Verify.{
  plain, parse_amz_date, request_time, verified_body, check_scope, computed, verify,
}
use kavo.Sigv4.Signed.{Signed, verify-Signed}

-- A digest that keeps the start of a text
abbrev lib : Library
lib = record {
  hmac_sha256 = λ key s. take 3 s;
  sha256 = λ s. length s ∷ [];
  hex = λ s. s;
  hex_decode = λ s. none;
  canonical_key = λ s. s;
  parse_time = λ s. none;
  time_parse = λ layout s. some 5;
  format_time = λ layout t. text "20130524";
  format_int = λ n. [];
}

abbrev creds : Credentials
creds = record { access_key = text "AK"; secret_key = text "secret" }

abbrev request : Request
request = record {
  method = text "GET";
  host = text "h";
  escaped_path = text "/b/k";
  query = [];
  headers =
      (
        text "Authorization",
        text
              "AWS4-HMAC-SHA256 Credential=AK/20130524/us/s3/aws4_request, SignedHeaders=host, Signature=AWS"
            ∷ [],
      )
      ∷ (text "x-amz-date", text "20130524T000000Z" ∷ [])
      ∷ [];
  content_length = none;
}

escaped : uri_encode (text "a b/~") ≡ text "a%20b%2F~"
unfolding uri_encode
escaped = refl

accepted : verify lib request creds 7 ≡ ok (plain, none)
unfolding verify parse_authorization cut_prefix split read_parts cut trim_space trim_left trim_right
    authorize has same values_of check_scope request_time parse_amz_date canonical_request
    header_lines header_value canonical_path canonical_query query_pairs join computed sign
    signing_key string_to_sign verified_body kavo.Cluster.Nodes.sorted
accepted = refl

verify-Signed_example :
    (auth : Authorization) × (t : ℕ) × (canonical : Bytes) × Signed lib request creds 7 auth t
      canonical
verify-Signed_example = verify-Signed lib request creds 7 (plain, none) accepted
