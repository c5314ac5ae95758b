-- ===== src/Server/Sync/Caching.antt =====
-- The entity tag of a ruleset, sent back.
use Prim.Native.Char.{Char}
use Prim.Native.String.{String, [], ◌∷◌, ◌++◌}
use Prim.Native.String.append
use flaps.Prelude.{
  ℕ, ◌≡◌, refl, sym, ap, ◌∙◌, Bool, false, Option, none, some, Result, ok, err, eq_iff, Bool-cases,
  inl, inr, ok-injective, none≢some, ◌>>◌,
}
use mathlib.Core.Option.{some-injective}
use flaps.Prelude.Text.{trim, trim_start, trim_end, is_whitespace}
use flaps.Numbers.{Numbers}
use flaps.Compiler.Environment.{CompiledRuleset}
use flaps.Domain.SdkKey.{server}
use flaps.Server.ApiErrors.{ApiError}
use flaps.Server.RateLimit.{Host, RateLimiter, check}
use flaps.Server.SdkAuth.{Header, SdkKeyPrincipal}
use flaps.Server.Sync.{
  RulesetResponse, not_modified, downloaded, respond, format_etag, is_not_modified, header_if,
  get_ruleset, server_ruleset, principal_or, limited, cached, CompiledCache, require_server_key,
}

trim_end-cons : (c : Char) (s : String) → trim_end s ≡ s → (s ≡ [] → ⊥) → trim_end (c ∷ s) ≡ c ∷ s
unfolding trim_end
trim_end-cons c [] h filled = elim (filled refl) [ ]
trim_end-cons c (d ∷ s) h filled = rw (trim_end, h) refl

filled_by : (s : String) (c : Char) → s ++ (c ∷ []) ≡ [] → ⊥
filled_by [] c h = elim (nothing (sym (append.nil (c ∷ [])) ∙ h)) [ ]
  where
    nothing : c ∷ [] ≡ [] → ⊥
    nothing e = cc
filled_by (d ∷ s) c h = elim (nothing (sym (append.cons d s (c ∷ [])) ∙ h)) [ ]
  where
    nothing : d ∷ (s ++ (c ∷ [])) ≡ [] → ⊥
    nothing e = cc

trim_end-append :
    (s : String) (c : Char) → is_whitespace c ≡ false → trim_end (s ++ (c ∷ [])) ≡ s ++ (c ∷ [])
unfolding trim_end
trim_end-append [] c h = rw (append.nil (c ∷ []), h) refl
trim_end-append (d ∷ s) c h =
    rw (append.cons d s (c ∷ []))
      (trim_end-cons d (s ++ (c ∷ [])) (trim_end-append s c h) (filled_by s c))

quoted : (hash : String) → format_etag hash ≡ "\"" ∷ (hash ++ "\"")
unfolding format_etag
quoted hash = append.cons "\"" [] (hash ++ "\"") ∙ ap (λ x. "\"" ∷ x) (append.nil (hash ++ "\""))

-- A quoted text has no space around it.
trim-format_etag : (hash : String) → trim (format_etag hash) ≡ format_etag hash
unfolding trim trim_start
trim-format_etag hash =
    rw (quoted hash)
      (trim_end-cons "\"" (hash ++ "\"") (trim_end-append hash "\"" refl) (filled_by hash "\""))

header_if-some :
    (valid : String → Bool) (text value : String) → header_if valid text ≡ some value → value ≡ text
unfolding header_if
header_if-some valid text value h = elim (Bool-cases (valid text)) [
  | inl fits ↦ sym (some-injective _ _ (rw fits at h))
  | inr unfit ↦ elim (none≢some (rw unfit at h)) [ ]
]

abbrev etag_of : RulesetResponse → Option String
etag_of not_modified = none
etag_of (downloaded document etag version) = etag

no_etag :
    {document etag : String} {version : Option String}
    → ◌≡◌ {A = Result ApiError RulesetResponse}
        (ok not_modified)
        (ok (downloaded document (some etag) version))
    → ⊥
no_etag h = cc

-- What a download that went well went through.
downloaded-respond :
    (valid : String → Bool) (sent : Header) (found : Option CompiledRuleset)
    (document etag : String) (version : Option String)
    → respond valid sent found ≡ ok (downloaded document (some etag) version)
    → (entry : CompiledRuleset) × (found ≡ some entry) × (etag ≡ format_etag entry.content_hash)
unfolding respond header_if
downloaded-respond valid sent none document etag version h = cc
downloaded-respond valid sent (some entry) document etag version h =
    elim (Bool-cases (is_not_modified sent (format_etag entry.content_hash))) [
      | inl same ↦ elim (no_etag (rw same at h)) [ ]
      | inr changed ↦ (
        entry,
        refl,
        header_if-some valid (format_etag entry.content_hash) etag
            (ap etag_of (ok-injective (rw changed at h))),
      )
    ]

answered-ok :
    (valid : String → Bool) (sent : Header) (found : Option CompiledRuleset)
    (answer : Result ℕ (Unit {0})) {response : RulesetResponse}
    → (limited answer >> respond valid sent found) ≡ ok response
    → respond valid sent found ≡ ok response
unfolding limited
answered-ok valid sent found (ok unit) h = h
answered-ok valid sent found (err wait) h = cc

sent_back :
    (valid : String → Bool) (hash : String) (entry : CompiledRuleset)
    → hash ≡ format_etag entry.content_hash
    → respond valid (some (some hash)) (some entry) ≡ ok not_modified
unfolding respond is_not_modified
sent_back valid hash entry e =
    rw (e, trim-format_etag entry.content_hash, (eq_iff (format_etag entry.content_hash) _).1 refl)
      refl

module _ ⦃num : Numbers⦄ (host : Host) where
  server_ruleset-server :
      (valid : String → Bool) (now : host.Instant) (sent : Header) (cache : CompiledCache)
      (principal : SdkKeyPrincipal) (limiter : RateLimiter host)
      → principal.kind ≡ server
      → (server_ruleset host valid now sent cache (ok principal) limiter).0 ≡ (
          limited (check host now principal.prefix limiter).0
          >> respond valid sent
              (cached principal.scope.project_key principal.scope.environment_key cache))
  unfolding server_ruleset require_server_key
  server_ruleset-server valid now sent cache principal limiter kind = rw kind refl

  -- The entity tag of a ruleset that a server key has downloaded, sent back in `If-None-Match` while the cache is the same and the
  -- rate limiter admits the request, is answered 304.
  pub get_ruleset-not_modified :
      (valid : String → Bool) (now later : host.Instant) (principal : SdkKeyPrincipal)
      (sent : Header) (cache : CompiledCache) (limiter other : RateLimiter host)
      (document etag : String) (version : Option String)
      → principal.kind ≡ server
      → (get_ruleset host valid now (ok principal) sent cache limiter).0
        ≡ ok (downloaded document (some etag) version)
      → (check host later principal.prefix other).0 ≡ ok tt
      → (get_ruleset host valid later (ok principal) (some (some etag)) cache other).0
        ≡ ok not_modified
  unfolding get_ruleset principal_or limited
  get_ruleset-not_modified valid now later principal sent cache limiter other document etag version
        kind got admitted =
      let found = cached principal.scope.project_key principal.scope.environment_key cache in
      let first = sym (server_ruleset-server valid now sent cache principal limiter kind) ∙ got in
      let (entry, there, tag) =
        downloaded-respond valid sent found document etag version
          (answered-ok valid sent found (check host now principal.prefix limiter).0 first) in
      server_ruleset-server valid later (some (some etag)) cache principal other kind
      ∙ rw (admitted, there) (sent_back valid etag entry tag)
