-- ===== src/Server/Login/Threads.antt =====
-- Many logins at once: the part of `post_login` (crates/flaps-server/src/routes/auth.rs) from the permit of the pool
-- (preauth/password_pool.rs) on, from one suspension of the handler to the next, in any order. The stages before it neither
-- suspend nor touch the pool.
use flaps.Prelude.{ℕ, ◌+◌, ◌≡◌, String, Option, none, some, List, [], ◌∷◌, ◌++◌, Result, ok, err}
use flaps.Server.ApiErrors.{StoreError}
use flaps.Server.Preauth.{PreAuthRejection, try_acquire, with_capacity}
use flaps.Server.Login.{AccountRecord, Accounts}

-- Where the handler waits for the store: for the verification, or for the session of an account.
pub data Phase : Type 0 where
  verifying : String → String → Phase
  creating : String → Phase

-- A handler that waits, with the permits that its variables hold.
pub record Thread : Type 0 where
  pub phase : Phase
  pub held : ℕ

-- What the handlers share: the store and the pool's free permits.
pub record Shared (S : Type 0) : Type 0 where
  pub store : S
  pub free : ℕ

module _ {S : Type 0} where
  -- A handler that returns or is dropped drops what it holds.
  unfoldable pub returned : Thread → Shared S → List Thread × Shared S
  returned thread shared = ([], record shared { free = shared.free + thread.held })

  -- `_verification_permit` is bound to the end of the handler, which then calls `verify_credentials`.
  unfoldable pub entered : String → String → ℕ → Shared S → List Thread × Shared S
  entered username password free shared =
      (record { phase = verifying username password; held = 1 } ∷ [], record shared { free = free })

  unfoldable pub acquired :
      String → String → Result PreAuthRejection ℕ → Shared S → List Thread × Shared S
  unfolding entered
  acquired username password (err rejection) shared = ([], shared)
  acquired username password (ok free) shared = entered username password free shared

  unfoldable pub verified :
      Result StoreError (Option AccountRecord) × S → Thread → Shared S → List Thread × Shared S
  unfolding returned
  verified (err e, store) thread shared = returned thread (record shared { store = store })
  verified (ok none, store) thread shared = returned thread (record shared { store = store })
  verified (ok (some account), store) thread shared =
      (record thread { phase = creating account.id } ∷ [], record shared { store = store })

  module _ (accounts : Accounts S) (session_ttl : ℕ) where
    -- The store has answered: what the handler does then.
    unfoldable pub resumed : Phase → Thread → Shared S → List Thread × Shared S
    unfolding verified returned
    resumed (verifying username password) thread shared =
        verified (accounts.verify_credentials username password shared.store) thread shared
    resumed (creating account) thread shared =
        returned thread
          (record shared { store = (accounts.create_session account session_ttl shared.store).1 })

    pub record System : Type 0 where
      pub shared : Shared S
      pub threads : List Thread

    -- A login reaches the pool, one that waits goes on, or its client goes away, whatever the store has then done.
    pub data Step (s t : System) : Type 0 where
      arrive :
          (username password : String) (result : List Thread × Shared S)
          → acquired username password (try_acquire s.shared.free) s.shared ≡ result
          → t ≡ record { shared = result.1; threads = result.0 ++ s.threads }
          → Step s t
      go_on :
          (before after : List Thread) (thread : Thread) (result : List Thread × Shared S)
          → s.threads ≡ before ++ (thread ∷ after)
          → resumed thread.phase thread s.shared ≡ result
          → t ≡ record { shared = result.1; threads = before ++ (result.0 ++ after) }
          → Step s t
      cancel :
          (before after : List Thread) (thread : Thread) (store : S)
          (result : List Thread × Shared S)
          → s.threads ≡ before ++ (thread ∷ after)
          → returned thread (record s.shared { store = store }) ≡ result
          → t ≡ record { shared = result.1; threads = before ++ (result.0 ++ after) }
          → Step s t

    -- The states that the logins of a server reach whose pool has a capacity.
    pub data Reach (capacity : ℕ) (store : S) : System → Type 0 where
      start : Reach capacity store (record {
        shared = record { store = store; free = with_capacity capacity };
        threads = [];
      })
      next : {s t : System} → Reach capacity store s → Step s t → Reach capacity store t
