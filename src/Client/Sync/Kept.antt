-- ===== src/Client/Sync/Kept.antt =====
-- What a fetch keeps and stores, and a snapshot that is loaded again.
use flaps.Prelude.{
  ◌≡◌, refl, String, Bool, true, false, Option, none, some, Result, ok, err, eqb, Bool-cases, inl,
  inr, ◌⊎◌,
}
use flaps.Numbers.{Numbers}
use flaps.Eval.Coerce.{JsonValue}
use flaps.Eval.Model.{FlagSetOf}
use flaps.Eval.Parse.Errors.{ParseError}
use flaps.Eval.Parse.Document.{from_json}
use flaps.Client.Sync.{
  Response, Write, renamed, Client, new, confirmed, written, write_snapshot, store_parsed,
  store_body, store_answer, fetch_and_store, load_parsed, load_snapshot, is_success,
}

module _ ⦃num : Numbers⦄ {Instant : Type 0} (parse : String → Option JsonValue) where
  -- What a fetch comes to: it fails and changes nothing; or the server says that nothing has changed; or a document that parses
  -- is stored with its version, and where a snapshot is written it is of them.
  pub data Fetched (now : Instant) (path : Option Write) (before : Client Instant)
      : Bool × Client Instant → Type 0 where
    unfetched : Fetched now path before (false, before)
    unchanged : Fetched now path before (true, confirmed now before)
    stored :
        (response : Response) (body : String) (set : FlagSetOf)
        → from_json parse body ≡ ok set
        → Fetched now path before (store_parsed parse now path response body (ok set) before)

  parsed-Fetched :
      (now : Instant) (path : Option Write) (response : Response) (body : String)
      (c : Client Instant) (result : Result ParseError FlagSetOf)
      → from_json parse body ≡ result
      → Fetched now path c (store_parsed parse now path response body result c)
  unfolding store_parsed
  parsed-Fetched now path response body c (err e) same = unfetched
  parsed-Fetched now path response body c (ok set) same = stored response body set same

  body-Fetched :
      (now : Instant) (path : Option Write) (response : Response) (body : Option String)
      (c : Client Instant)
      → Fetched now path c (store_body parse now path response body c)
  unfolding store_body
  body-Fetched now path response none c = unfetched
  body-Fetched now path response (some body) c =
      parsed-Fetched now path response body c (from_json parse body) refl

  store_answer-Fetched :
      (now : Instant) (path : Option Write) (answer : Option Response) (c : Client Instant)
      → Fetched now path c (store_answer parse now path answer c)
  unfolding store_answer
  store_answer-Fetched now path none c = unfetched
  store_answer-Fetched now path (some response) c = elim (Bool-cases (eqb response.status 304)) [
    | inl same ↦ rw same unchanged
    | inr other ↦ elim (Bool-cases (is_success response.status)) [
      | inl success ↦ rw (other, success) (body-Fetched now path response response.body c)
      | inr failure ↦ rw (other, failure) unfetched
    ]
  ]

  pub fetch_and_store-Fetched :
      (now : Instant) (path : Option Write) (server : Option String → Option Response)
      (c : Client Instant)
      → Fetched now path c (fetch_and_store parse now path server c)
  unfolding fetch_and_store
  fetch_and_store-Fetched now path server c =
      store_answer-Fetched now path (server c.shared.sync_state.etag) c

  unfetched-same :
      (now : Instant) (path : Option Write) (c : Client Instant) (result : Bool × Client Instant)
      → Fetched now path c result
      → result.0 ≡ false
      → result.1 ≡ c
  unfolding store_parsed
  unfetched-same now path c result unfetched e = refl
  unfetched-same now path c result unchanged e = cc
  unfetched-same now path c result (stored response body set parsed) e = cc

  pub Fetched-flag_set :
      (now : Instant) (path : Option Write) (c : Client Instant) (result : Bool × Client Instant)
      → Fetched now path c result
      → (result.1.shared.flag_set ≡ c.shared.flag_set)
        ⊎ ((body : String) × (set : FlagSetOf) × (from_json parse body ≡ ok set)
            × (result.1.shared.flag_set ≡ some set))
  unfolding store_parsed confirmed
  Fetched-flag_set now path c result unfetched = inl refl
  Fetched-flag_set now path c result unchanged = inl refl
  Fetched-flag_set now path c result (stored response body set parsed) =
      inr (body, set, parsed, refl)

  -- A fetch that reports failure, for the request, the status, the body or the document, has changed nothing that the provider
  -- shares and no snapshot.
  pub fetch_and_store-false :
      (now : Instant) (path : Option Write) (server : Option String → Option Response)
      (c : Client Instant)
      → (fetch_and_store parse now path server c).0 ≡ false
      → (fetch_and_store parse now path server c).1 ≡ c
  fetch_and_store-false now path server c =
      unfetched-same now path c (fetch_and_store parse now path server c)
        (fetch_and_store-Fetched now path server c)

  -- A snapshot of what the client holds: loaded into a provider that starts, it gives the same flags and the same version.
  unfoldable pub Restores : Client Instant → Type 0
  unfolding load_snapshot
  Restores c =
      ((load_snapshot {Instant = Instant} parse c.snapshot new).flag_set ≡ c.shared.flag_set)
      × ((load_snapshot {Instant = Instant} parse c.snapshot new).sync_state.version
          ≡ c.shared.sync_state.version)

  parsed-Restores :
      (now : Instant) (response : Response) (body : String) (c : Client Instant)
      (result : Result ParseError FlagSetOf)
      → from_json parse body ≡ result
      → Restores c
      → Restores (store_parsed parse now (some renamed) response body result c).1
  unfolding store_parsed written write_snapshot load_snapshot load_parsed Restores new
  parsed-Restores now response body c (err e) same kept = kept
  parsed-Restores now response body c (ok set) same kept = rw same (refl, refl)

  body-Restores :
      (now : Instant) (response : Response) (body : Option String) (c : Client Instant)
      → Restores c
      → Restores (store_body parse now (some renamed) response body c).1
  unfolding store_body
  body-Restores now response none c kept = kept
  body-Restores now response (some body) c kept =
      parsed-Restores now response body c (from_json parse body) refl kept

  confirmed-Restores :
      (now : Instant) (c : Client Instant) → Restores c → Restores (confirmed now c)
  unfolding Restores confirmed
  confirmed-Restores now c kept = kept

  answer-Restores :
      (now : Instant) (answer : Option Response) (c : Client Instant)
      → Restores c
      → Restores (store_answer parse now (some renamed) answer c).1
  unfolding store_answer
  answer-Restores now none c kept = kept
  answer-Restores now (some response) c kept = elim (Bool-cases (eqb response.status 304)) [
    | inl same ↦ rw same (confirmed-Restores now c kept)
    | inr other ↦ elim (Bool-cases (is_success response.status)) [
      | inl success ↦ rw (other, success) (body-Restores now response response.body c kept)
      | inr failure ↦ rw (other, failure) kept
    ]
  ]

  -- Where every write of the snapshot goes well, a fetch keeps that the snapshot on disk restores what the client holds: loaded
  -- into a fresh provider it gives the same flags and the same version, whatever the server answers.
  pub fetch_and_store-Restores :
      (now : Instant) (server : Option String → Option Response) (c : Client Instant)
      → Restores c
      → Restores (fetch_and_store parse now (some renamed) server c).1
  unfolding fetch_and_store
  fetch_and_store-Restores now server c = answer-Restores now (server c.shared.sync_state.etag) c
