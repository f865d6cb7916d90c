-- ===== src/Sigv4/Canonical.antt =====
-- internal/sigv4/sigv4.go: the strings that are signed, and how they are signed.
use kavo.Base.{
  ℕ, ◌+◌, ◌/◌, ◌%◌, Bool, ◌&&◌, ◌||◌, ltb, leb, ◌==◌, Option, none, some, List, [], ◌∷◌, ◌++◌, map,
  length, Bytes, text, same, is_space, if◌then◌else◌, Result, ok, err,
}
use kavo.Cluster.Nodes.{sorted}
use kavo.Sigv4.Request.{SigError, malformed, algorithm, unsigned, Request, Library, join}

abbrev pub day_layout : Bytes
day_layout = text "20060102"

abbrev pub instant_layout : Bytes
instant_layout = text "20060102T150405Z"

-- strings.Fields, of ASCII text
unfoldable pub fields : Bytes → List Bytes
fields [] = []
fields (c ∷ s) =
    let rest = fields s in
    if is_space c then rest else elim s [
      | [] ↦ (c ∷ []) ∷ rest
      | d ∷ ds ↦
          if is_space d
          then (c ∷ []) ∷ rest
          else elim rest [ [] ↦ (c ∷ []) ∷ [] | word ∷ words ↦ (c ∷ word) ∷ words ]
    ]

-- The value of a key in a map from texts, with `none` where it is missing
unfoldable pub values_of : List (Bytes × List Bytes) → Bytes → Option (List Bytes)
values_of [] key = none
values_of ((k, vs) ∷ m) key = let rest = values_of m key in if same k key then some vs else rest

abbrev pub is_unreserved : ℕ → Bool
is_unreserved c =
    (leb 97 c && leb c 122)
    || (leb 65 c && leb c 90)
    || (leb 48 c && leb c 57)
    || (c == b'-' || c == b'_' || c == b'.' || c == b'~')

-- The digit of %X
abbrev pub upper_hex : ℕ → ℕ
upper_hex n = if ltb n 10 then 48 + n else 55 + n

unfoldable pub uri_encode : Bytes → Bytes
uri_encode [] = []
uri_encode (c ∷ s) =
    if is_unreserved c
    then c ∷ uri_encode s
    else b'%' ∷ upper_hex (c / 16) ∷ upper_hex (c % 16) ∷ uri_encode s

-- canonicalQuery
unfoldable pub query_pairs : List (Bytes × List Bytes) → List Bytes
query_pairs [] = []
query_pairs ((name, vs) ∷ values) =
    map (λ v. uri_encode name ++ text "=" ++ uri_encode v) (sorted vs) ++ query_pairs values

unfoldable pub canonical_query : Request → Bytes
canonical_query r = join (sorted (query_pairs r.query)) (text "&")

unfoldable pub canonical_path : Request → Bytes
canonical_path r = if length r.escaped_path == 0 then text "/" else r.escaped_path

module _ (lib : Library) where
  -- Header.Get
  abbrev pub header_get : Request → Bytes → Bytes
  header_get r name = elim (values_of r.headers (lib.canonical_key name)) [
    | none ↦ []
    | some [] ↦ []
    | some (v ∷ vs) ↦ v
  ]

  unfoldable pub header_value : Request → Bytes → Option Bytes
  header_value r name =
      if same name (text "host")
      then if length r.host == 0 then none else some r.host
      else if same name (text "content-length")
      then elim r.content_length [ none ↦ none | some n ↦ some (lib.format_int n) ]
      else elim (values_of r.headers (lib.canonical_key name)) [
        | none ↦ none
        | some vs ↦ some (join (map (λ v. join (fields v) (text " ")) vs) (text ","))
      ]

  -- The loop of canonicalRequest
  unfoldable pub header_lines : Request → List Bytes → Result SigError Bytes
  header_lines r [] = ok []
  header_lines r (name ∷ names) =
      let rest = header_lines r names in
      elim (header_value r name) [
        | none ↦ err malformed
        | some value ↦ elim rest [
          | err e ↦ err e
          | ok lines ↦ ok ((name ++ text ":" ++ value ++ text "\n") ++ lines)
        ]
      ]

  unfoldable pub canonical_request : Request → List Bytes → Bytes → Result SigError Bytes
  canonical_request r signed_headers payload = elim (header_lines r signed_headers) [
    | err e ↦ err e
    | ok lines ↦
        let declared = if length payload == 0 then unsigned else payload in
        ok (
          join
            (r.method
              ∷ canonical_path r
              ∷ canonical_query r
              ∷ lines
              ∷ join signed_headers (text ";")
              ∷ declared
              ∷ [])
            (text "\n"))
  ]

  unfoldable pub string_to_sign : ℕ → Bytes → Bytes → Bytes
  string_to_sign t scoped digest =
      join (algorithm ∷ lib.format_time instant_layout t ∷ scoped ∷ digest ∷ []) (text "\n")

  unfoldable pub signing_key : Bytes → Bytes → Bytes → Bytes → Bytes
  signing_key secret date region service =
      let k1 = lib.hmac_sha256 (text "AWS4" ++ secret) date in
      let k2 = lib.hmac_sha256 k1 region in
      let k3 = lib.hmac_sha256 k2 service in lib.hmac_sha256 k3 (text "aws4_request")

  unfoldable pub sign : Bytes → Bytes → Bytes
  sign key bytes = lib.hex (lib.hmac_sha256 key bytes)
