-- ===== src/Sigv4/Authorization.antt =====
-- internal/sigv4/sigv4.go: parseAuthorization.
use kavo.Base.{
  not, ◌||◌, ◌==◌, none, some, List, [], ◌∷◌, ◌++◌, length, Bytes, text, same, has, cut, cut_prefix,
  split, trim_space, if◌then◌else◌, Result, ok, err,
}
use kavo.Sigv4.Request.{SigError, missing_signature, malformed, algorithm, Authorization, scope}

-- The fields that the loop of parseAuthorization fills
pub record Parts : Type 0 where
  pub credential : Bytes
  pub headers : List Bytes
  pub sig : Bytes

abbrev pub set_part : Bytes → Bytes → Parts → Parts
set_part name value p =
    if same name (text "Credential")
    then record p { credential = value }
    else if same name (text "SignedHeaders")
    then record p { headers = split b';' value }
    else if same name (text "Signature")
    then record p { sig = value }
    else p

unfoldable pub read_parts : List Bytes → Parts → Result SigError Parts
read_parts [] p = ok p
read_parts (part ∷ parts) p = elim (cut b'=' (trim_space part)) [
  | none ↦ err malformed
  | some (name, value) ↦ read_parts parts (set_part name value p)
]

-- The end of parseAuthorization, with the elements of the credential
unfoldable pub authorize : List Bytes → Parts → Result SigError Authorization
authorize (key ∷ date ∷ region ∷ service ∷ last ∷ []) p =
    if not (same last (text "aws4_request"))
    then err malformed
    else if length p.sig == 0 || length p.headers == 0
    then err malformed
    else if not (has p.headers (text "host"))
    then err malformed
    else ok (record {
      access_key = key;
      date = date;
      region = region;
      service = service;
      signed_headers = p.headers;
      signature = p.sig;
    })
authorize scope p = err malformed

unfoldable pub parse_authorization : Bytes → Result SigError Authorization
parse_authorization header = elim (cut_prefix header (algorithm ++ text " ")) [
  | none ↦ if length header == 0 then err missing_signature else err malformed
  | some rest ↦
      elim (read_parts (split b',' rest) (record { credential = []; headers = []; sig = [] })) [
        | err e ↦ err e
        | ok p ↦ authorize (split b'/' p.credential) p
      ]
]
