-- ===== src/Server/SdkAuth/Lookups.antt =====
-- What a request with an SDK key needs to be let in, and what it costs its client.
use flaps.Prelude.{
  ◌≡◌, refl, sym, String, Option, none, some, Result, ok, err, ◌⊎◌, inl, inr, ok-injective,
}
use flaps.Numbers.{Numbers}
use flaps.Domain.SdkKey.{SdkKeyRecord}
use flaps.Server.ApiErrors.{ApiError, StoreError, unauthorized}
use flaps.Server.RateLimit.{Host}
use flaps.Server.Preauth.{PreAuthBudget, sdk_admits, consume_sdk_failure, reject_impossible_sdk_key}
use flaps.Server.SdkAuth.{
  Header, SdkKeys, SdkKeyPrincipal, Extracted, extract_bearer, principal_of, sdk_principal,
  after_lookup, after_admission, after_shape, after_bearer,
}

module _ ⦃num : Numbers⦄ (host : Host) where
  -- Where a request comes to: a principal costs nothing and is that of a key which the store has found; and any cost is that of a
  -- lookup that found none.
  record Looked (later : host.Instant) (client : String) (find : SdkKeys) (bearer : Option String)
      (budget : PreAuthBudget host) (after : Extracted × PreAuthBudget host) : Type 0 where
    principal :
        (p : SdkKeyPrincipal)
        → after.0 ≡ ok p
        → (key : String) × (found : SdkKeyRecord) × (bearer ≡ some key)
          × (reject_impossible_sdk_key key ≡ ok tt)
          × (find key ≡ ok (some found))
          × (p ≡ principal_of found)
          × (after.1 ≡ budget)
    cost :
        (after.1 ≡ budget)
        ⊎ ((key : String) × (bearer ≡ some key)
            × (find key ≡ ok none)
            × (after.0 ≡ err (401, unauthorized))
            × (after.1 ≡ (consume_sdk_failure host later client budget).1))

  lookup-Looked :
      (later : host.Instant) (client : String) (find : SdkKeys) (key : String)
      (budget : PreAuthBudget host) (result : Result StoreError (Option SdkKeyRecord))
      → find key ≡ result
      → reject_impossible_sdk_key key ≡ ok tt
      → Looked later client find (some key) budget (after_lookup host later client result budget)
  unfolding after_lookup
  lookup-Looked later client find key budget (err e) found shape = record {
    principal = λ p h. cc;
    cost = inl refl;
  }
  lookup-Looked later client find key budget (ok none) found shape = record {
    principal = λ p h. cc;
    cost = inr (key, refl, found, refl, refl);
  }
  lookup-Looked later client find key budget (ok (some entry)) found shape = record {
    principal = λ p h. (key, entry, refl, shape, found, sym (ok-injective h), refl);
    cost = inl refl;
  }

  bearer-Looked :
      (now later : host.Instant) (client : String) (find : SdkKeys) (bearer : Option String)
      (budget : PreAuthBudget host)
      → Looked later client find bearer budget
          (after_bearer host now later client find bearer budget)
  unfolding after_bearer
  bearer-Looked now later client find none budget = record {
    principal = λ p h. cc;
    cost = inl refl;
  }
  bearer-Looked now later client find (some key) budget =
      shaped (reject_impossible_sdk_key key) refl
    where
      admitted :
          (answer : Result _ (Unit {0}))
          → reject_impossible_sdk_key key ≡ ok tt
          → Looked later client find
              (some key)
              budget
              (after_admission host later client find key answer budget)
      admitted (err rejection) shape = record { principal = λ p h. cc; cost = inl refl }
      admitted (ok unit) shape = lookup-Looked later client find key budget (find key) refl shape

      shaped :
          (answer : Result ApiError (Unit {0}))
          → reject_impossible_sdk_key key ≡ answer
          → Looked later client find
              (some key)
              budget
              (after_shape host now later client find key answer budget)
      shaped (err e) shape = record { principal = λ p h. cc; cost = inl refl }
      shaped (ok unit) shape = admitted (sdk_admits host now client budget) shape

  -- A request is let in with an SDK key only as the principal of a record that the store found for the key of its header, a key
  -- of the shape that the generator gives; and it spends nothing of any budget.
  pub sdk_principal-ok :
      (now later : host.Instant) (client : String) (find : SdkKeys) (header : Header)
      (budget : PreAuthBudget host) (principal : SdkKeyPrincipal)
      → (sdk_principal host now later client find header budget).0 ≡ ok principal
      → (key : String) × (found : SdkKeyRecord) × (extract_bearer header ≡ some key)
        × (reject_impossible_sdk_key key ≡ ok tt)
        × (find key ≡ ok (some found))
        × (principal ≡ principal_of found)
        × ((sdk_principal host now later client find header budget).1 ≡ budget)
  unfolding sdk_principal
  sdk_principal-ok now later client find header budget p =
      (bearer-Looked now later client find (extract_bearer header) budget).principal p

  -- A request with an SDK key costs its client nothing, or the store has found no key for its header, it is answered 401 and the budget is
  -- that after one `consume_sdk_failure`.
  pub sdk_principal_cost :
      (now later : host.Instant) (client : String) (find : SdkKeys) (header : Header)
      (budget : PreAuthBudget host)
      → ((sdk_principal host now later client find header budget).1 ≡ budget)
        ⊎ ((key : String) × (extract_bearer header ≡ some key)
            × (find key ≡ ok none)
            × ((sdk_principal host now later client find header budget).0 ≡ err (401, unauthorized))
            × ((sdk_principal host now later client find header budget).1
                ≡ (consume_sdk_failure host later client budget).1))
  unfolding sdk_principal
  sdk_principal_cost now later client find header budget =
      (bearer-Looked now later client find (extract_bearer header) budget).cost
