-- ===== src/Sigv4/Signed.antt =====
-- internal/sigv4/sigv4.go: what a request that Verify accepts has proved.
use kavo.Base.{
  ℕ, ◌+◌, ◌≤◌, ◌≡◌, sym, ap, ◌∙◌, inl, inr, arith, true, ◌||◌, ltb, ◌==◌, Bool-cases, Option,
  Option-cases, List, [], ◌∷◌, length, Bytes, text, same, same_iff, has, cut_prefix, split, ◌++◌,
  ok, ok-ne-err, ok_inj, Result-cases,
}
use kavo.Base.Integers.{ℤ}
use kavo.Sigv4.Request.{max_skew, algorithm, Credentials, Authorization, Request, Library}
use kavo.Sigv4.Authorization.{Parts, read_parts, authorize, parse_authorization}
use kavo.Sigv4.Canonical.{header_get, canonical_request, day_layout}
use kavo.Sigv4.Verify.{Body, request_time, check_scope, computed, verify}

module _ (lib : Library) (r : Request) (creds : Credentials) (now : ℕ) where
  -- The request carries an authorization by the one key pair, for the service s3, that signs the host
  -- and is dated within the skew of the clock and on the day of its scope, and its signature is the
  -- one that the secret gives the canonical request.
  pub record Signed (auth : Authorization) (signed_at : ℕ) (canonical : Bytes) : Type 0 where
    pub parsed : parse_authorization (header_get lib r (text "Authorization")) ≡ ok auth
    pub key : auth.access_key ≡ creds.access_key
    pub host : has auth.signed_headers (text "host") ≡ true
    pub dated : request_time lib r ≡ ok signed_at
    pub not_late : now ≤ signed_at + max_skew
    pub not_early : signed_at ≤ now + max_skew
    pub day : auth.date ≡ lib.format_time day_layout signed_at
    pub service : auth.service ≡ text "s3"
    pub covered :
        canonical_request lib r auth.signed_headers (header_get lib r (text "x-amz-content-sha256"))
        ≡ ok canonical
    pub signature : computed lib creds auth signed_at canonical ≡ auth.signature

authorize-host :
    (elements : List Bytes) (p : Parts) (auth : Authorization)
    → authorize elements p ≡ ok auth
    → has auth.signed_headers (text "host") ≡ true
unfolding authorize
authorize-host [] p auth h = absurd (ok-ne-err (sym h))
authorize-host (a ∷ []) p auth h = absurd (ok-ne-err (sym h))
authorize-host (a ∷ b ∷ []) p auth h = absurd (ok-ne-err (sym h))
authorize-host (a ∷ b ∷ c ∷ []) p auth h = absurd (ok-ne-err (sym h))
authorize-host (a ∷ b ∷ c ∷ d ∷ []) p auth h = absurd (ok-ne-err (sym h))
authorize-host (a ∷ b ∷ c ∷ d ∷ e ∷ f ∷ more) p auth h = absurd (ok-ne-err (sym h))
authorize-host (a ∷ b ∷ c ∷ d ∷ e ∷ []) p auth h =
    elim (Bool-cases (same e (text "aws4_request"))) [
      | inr other ↦ absurd (ok-ne-err (sym (rw (other, authorize) at h)))
      | inl last ↦ elim (Bool-cases (length p.sig == 0 || length p.headers == 0)) [
        | inl empty ↦ absurd (ok-ne-err (sym (rw (last, empty, authorize) at h)))
        | inr full ↦ elim (Bool-cases (has p.headers (text "host"))) [
          | inr unhosted ↦ absurd (ok-ne-err (sym (rw (last, full, unhosted, authorize) at h)))
          | inl hosted ↦
              sym (
                ap (λ (x : Authorization). has x.signed_headers (text "host"))
                  (ok_inj (rw (last, full, hosted, authorize) at h)))
              ∙ hosted
        ]
      ]
    ]

parse_authorization-host :
    (header : Bytes) (auth : Authorization)
    → parse_authorization header ≡ ok auth
    → has auth.signed_headers (text "host") ≡ true
unfolding parse_authorization
parse_authorization-host header auth h =
    elim (Option-cases (cut_prefix header (algorithm ++ text " "))) [
      | inl other ↦ elim (Bool-cases (length header == 0)) [
        | inl empty ↦ absurd (ok-ne-err (sym (rw (other, empty, parse_authorization) at h)))
        | inr full ↦ absurd (ok-ne-err (sym (rw (other, full, parse_authorization) at h)))
      ]
      | inr (rest, found) ↦
          elim (Result-cases
            (read_parts (split b',' rest) (record { credential = []; headers = []; sig = [] }))) [
              | inl (e, failed) ↦
                  absurd (ok-ne-err (sym (rw (found, failed, parse_authorization) at h)))
              | inr (p, done) ↦
                  authorize-host (split b'/' p.credential) p auth
                    (rw (found, done, parse_authorization) at h)
            ]
    ]

module _ (lib : Library) (r : Request) (creds : Credentials) (now : ℕ) where
  -- What the checks before the canonical request establish
  abbrev Dated : Authorization → ℕ → Type 0
  Dated auth t =
      (auth.access_key ≡ creds.access_key)
      × (request_time lib r ≡ ok t)
      × (now ≤ t + max_skew)
      × (t ≤ now + max_skew)
      × (auth.date ≡ lib.format_time day_layout t)
      × (auth.service ≡ text "s3")

  check_scope-Dated :
      (auth : Authorization) (t : ℕ) → check_scope lib r creds now auth ≡ ok t → Dated auth t
  unfolding check_scope
  check_scope-Dated auth t h = elim (Bool-cases (same auth.access_key creds.access_key)) [
    | inr other ↦ absurd (ok-ne-err (sym (rw (other, check_scope) at h)))
    | inl key ↦ elim (Result-cases (request_time lib r)) [
      | inl (e, failed) ↦ absurd (ok-ne-err (sym (rw (key, failed, check_scope) at h)))
      | inr (at, dated) ↦ elim (Bool-cases (ltb (at + max_skew) now || ltb (now + max_skew) at)) [
        | inl skewed ↦ absurd (ok-ne-err (sym (rw (key, dated, skewed, check_scope) at h)))
        | inr near ↦ elim (Bool-cases (same auth.date (lib.format_time day_layout at))) [
          | inr wrong ↦ absurd (ok-ne-err (sym (rw (key, dated, near, wrong, check_scope) at h)))
          | inl day ↦ elim (Bool-cases (same auth.service (text "s3"))) [
            | inr strange ↦
                absurd (ok-ne-err (sym (rw (key, dated, near, day, strange, check_scope) at h)))
            | inl s3 ↦
                let e : at ≡ t = ok_inj (rw (key, dated, near, day, s3, check_scope) at h) in
                (
                  (same_iff auth.access_key creds.access_key).0 key,
                  dated ∙ ap ok e,
                  ground (arith, e),
                  ground (arith, e),
                  (same_iff auth.date (lib.format_time day_layout at)).0 day
                      ∙ ap (lib.format_time day_layout) e,
                  (same_iff auth.service (text "s3")).0 s3,
                )
          ]
        ]
      ]
    ]
  ]

  -- A request that Verify accepts carries an authorization that parses, by the one access key, for the
  -- service s3, with the host among its signed headers; it is dated within the allowed skew of the
  -- clock and on the day of its scope; and its signature is the one that the secret key gives the
  -- canonical request of the headers that it names and of the payload hash that it declares.
  pub verify-Signed :
      (accepted : Body × Option ℤ)
      → verify lib r creds now ≡ ok accepted
      → (auth : Authorization) × (t : ℕ) × (canonical : Bytes) × Signed lib r creds now auth t
          canonical
  unfolding verify
  verify-Signed accepted h =
      let payload = header_get lib r (text "x-amz-content-sha256") in
      elim (Result-cases (parse_authorization (header_get lib r (text "Authorization")))) [
        | inl (e, failed) ↦ absurd (ok-ne-err (sym (rw (failed, verify) at h)))
        | inr (auth, parsed) ↦ elim (Result-cases (check_scope lib r creds now auth)) [
          | inl (e, failed) ↦ absurd (ok-ne-err (sym (rw (parsed, failed, verify) at h)))
          | inr (t, checked) ↦
              elim (Result-cases (canonical_request lib r auth.signed_headers payload)) [
                | inl (e, failed) ↦
                    absurd (ok-ne-err (sym (rw (parsed, checked, failed, verify) at h)))
                | inr (canonical, covered) ↦
                    elim (Bool-cases (same (computed lib creds auth t canonical) auth.signature)) [
                      | inr other ↦
                          absurd
                            (ok-ne-err (sym (rw (parsed, checked, covered, other, verify) at h)))
                      | inl same_signature ↦
                          let (key, dated, late, early, day, service) =
                            check_scope-Dated auth t checked in
                          (
                            auth,
                            t,
                            canonical,
                            record {
                              parsed = parsed;
                              key = key;
                              host =
                                  parse_authorization-host (header_get lib r (text "Authorization"))
                                    auth parsed;
                              dated = dated;
                              not_late = late;
                              not_early = early;
                              day = day;
                              service = service;
                              covered = covered;
                              signature =
                                  (same_iff (computed lib creds auth t canonical) auth.signature).0
                                    same_signature;
                            },
                          )
                    ]
              ]
        ]
      ]
