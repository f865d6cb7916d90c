-- ===== src/Sigv4/Verify.antt =====
-- internal/sigv4/sigv4.go: the time of a request, its body, and Verify.
use kavo.Base.{
  ℕ, ◌+◌, not, ◌||◌, ltb, ◌==◌, Option, none, some, length, Bytes, text, same, if◌then◌else◌,
  Result, ok, err,
}
use kavo.Base.Integers.{ℤ, parse_int}
use kavo.Sigv4.Request.{
  SigError, malformed, missing_date, unknown_key, mismatch, skew, max_skew, unsigned, streaming,
  streaming_trl, unsigned_trl, Credentials, Authorization, Request, Library, scope,
}
use kavo.Sigv4.Authorization.{parse_authorization}
use kavo.Sigv4.Canonical.{
  header_get, canonical_request, string_to_sign, signing_key, sign, day_layout, instant_layout,
}

-- The readers that verifiedBody makes: of an aws-chunked body, with the signature that its first
-- chunk follows where chunks are signed; of the body as it is; and of one that must hash to a digest
pub data Body : Type 0 where
  chunked : Option Bytes → Body
  plain : Body
  hashed : Bytes → Body

module _ (lib : Library) where
  unfoldable pub parse_http_date : Bytes → Result SigError ℕ
  parse_http_date raw = elim (lib.parse_time raw) [
    | some t ↦ ok t
    | none ↦ elim (lib.time_parse (text "Mon, 02 Jan 2006 15:04:05 MST") raw) [
      | some t ↦ ok t
      | none ↦ elim (lib.time_parse (text "Mon, 02 Jan 2006 15:04:05 -0700") raw) [
        | some t ↦ ok t
        | none ↦ err malformed
      ]
    ]
  ]

  unfoldable pub parse_amz_date : Bytes → Result SigError ℕ
  parse_amz_date raw = elim (lib.time_parse instant_layout raw) [
    | some t ↦ ok t
    | none ↦ parse_http_date raw
  ]

  unfoldable pub request_time : Request → Result SigError ℕ
  request_time r =
      let amz = header_get lib r (text "x-amz-date") in
      let date = header_get lib r (text "Date") in
      if not (length amz == 0)
      then parse_amz_date amz
      else if not (length date == 0)
      then parse_http_date date
      else err missing_date

  -- The reader, and the declared length of the object where the header gives it
  unfoldable pub verified_body : Request → Bytes → Bytes → Result SigError (Body × Option ℤ)
  verified_body r payload seed =
      if same payload streaming || same payload streaming_trl || same payload unsigned_trl
      then elim (parse_int (header_get lib r (text "x-amz-decoded-content-length"))) [
        | none ↦ err malformed
        | some size ↦
            ok (chunked (if same payload unsigned_trl then none else some seed), some size)
      ]
      else if same payload unsigned || length payload == 0
      then ok (plain, none)
      else elim (lib.hex_decode payload) [
        | none ↦ err malformed
        | some want ↦ if length want == 32 then ok (hashed want, none) else err malformed
      ]

  -- The checks of Verify up to the canonical request
  unfoldable pub check_scope : Request → Credentials → ℕ → Authorization → Result SigError ℕ
  check_scope r creds now auth =
      if not (same auth.access_key creds.access_key)
      then err unknown_key
      else elim (request_time r) [
        | err e ↦ err e
        | ok signed_at ↦
            if ltb (signed_at + max_skew) now || ltb (now + max_skew) signed_at
            then err skew
            else if not (same auth.date (lib.format_time day_layout signed_at))
            then err malformed
            else if not (same auth.service (text "s3"))
            then err malformed
            else ok signed_at
      ]

  -- The signature that Verify computes for a canonical request
  unfoldable pub computed : Credentials → Authorization → ℕ → Bytes → Bytes
  computed creds auth signed_at canonical =
      sign lib (signing_key lib creds.secret_key auth.date auth.region auth.service)
        (string_to_sign lib signed_at (scope auth) (lib.hex (lib.sha256 canonical)))

  unfoldable pub verify : Request → Credentials → ℕ → Result SigError (Body × Option ℤ)
  verify r creds now =
      let payload = header_get lib r (text "x-amz-content-sha256") in
      elim (parse_authorization (header_get lib r (text "Authorization"))) [
        | err e ↦ err e
        | ok auth ↦ elim (check_scope r creds now auth) [
          | err e ↦ err e
          | ok signed_at ↦ elim (canonical_request lib r auth.signed_headers payload) [
            | err e ↦ err e
            | ok canonical ↦
                if not (same (computed creds auth signed_at canonical) auth.signature)
                then err mismatch
                else verified_body r payload (computed creds auth signed_at canonical)
          ]
        ]
      ]
