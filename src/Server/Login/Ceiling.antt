-- ===== src/Server/Login/Ceiling.antt =====
-- How many logins wait for the verification of a password at once. What the store still computes for a login that was
-- cancelled is not counted.
use flaps.Prelude.{
  ℕ, zero, suc, ◌+◌, ◌≤◌, ◌≡◌, refl, ◌∙◌, sym, ap, subst, String, Option, none, some, List, [], ◌∷◌,
  ◌++◌, Result, ok, err, arith, All,
}
use flaps.Server.ApiErrors.{StoreError}
use flaps.Server.Preauth.{try_acquire, with_capacity}
use flaps.Server.Login.{AccountRecord, Accounts}
use flaps.Server.Login.Threads.{
  Phase, verifying, creating, Thread, Shared, returned, entered, acquired, verified, resumed,
  System, Step, arrive, go_on, cancel, Reach, start, next,
}

abbrev pub is_verifying : Phase → ℕ
is_verifying (verifying username password) = 1
is_verifying (creating account) = 0

-- How many verifications are in flight.
abbrev pub verifications : List Thread → ℕ
verifications [] = 0
verifications (t ∷ ts) = is_verifying t.phase + verifications ts

abbrev pub held : List Thread → ℕ
held [] = 0
held (t ∷ ts) = t.held + held ts

abbrev Holding : Thread → Type 0
Holding t = t.held ≡ 1

held-append : (xs ys : List Thread) → held (xs ++ ys) ≡ held xs + held ys
held-append [] ys = omega arith
held-append (x ∷ xs) ys = omega (arith, held-append xs ys)

All-append : (xs ys : List Thread) → All Holding xs → All Holding ys → All Holding (xs ++ ys)
All-append [] ys a b = b
All-append (x ∷ xs) ys (here, a) b = (here, All-append xs ys a b)

All-split : (xs ys : List Thread) → All Holding (xs ++ ys) → All Holding xs × All Holding ys
All-split [] ys a = (tt, a)
All-split (x ∷ xs) ys (here, a) = let (first, second) = All-split xs ys a in ((here, first), second)

verifications-le-held : (ts : List Thread) → All Holding ts → verifications ts ≤ held ts
verifications-le-held [] a = omega arith
verifications-le-held (t ∷ ts) (one, a) =
    omega (arith, one, le_one t.phase, verifications-le-held ts a)
  where
    le_one : (p : Phase) → is_verifying p ≤ 1
    le_one (verifying username password) = omega arith
    le_one (creating account) = omega arith

module _ {S : Type 0} where
  -- A handler that goes on from permits that it holds.
  abbrev Trades : ℕ → ℕ → List Thread × Shared S → Type 0
  Trades free had result = (result.1.free + held result.0 ≡ free + had) × All Holding result.0

  returned-Trades :
      (thread : Thread) (shared : Shared S)
      → Trades shared.free thread.held (returned thread shared)
  unfolding returned
  returned-Trades thread shared = (omega arith, tt)

  acquired_from :
      (username password : String) (shared : Shared S) (n : ℕ)
      → shared.free ≡ n
      → Trades n 0 (acquired username password (try_acquire n) shared)
  unfolding acquired entered try_acquire
  acquired_from username password shared zero same = (omega (arith, same), tt)
  acquired_from username password shared (suc n) same = (omega arith, (refl, tt))

  acquired-Trades :
      (username password : String) (shared : Shared S)
      → Trades shared.free 0 (acquired username password (try_acquire shared.free) shared)
  acquired-Trades username password shared = acquired_from username password shared shared.free refl

  verified-Trades :
      (answer : Result StoreError (Option AccountRecord) × S) (thread : Thread) (shared : Shared S)
      → Holding thread
      → Trades shared.free thread.held (verified answer thread shared)
  unfolding verified
  verified-Trades (err e, store) thread shared one =
      returned-Trades thread (record shared { store = store })
  verified-Trades (ok none, store) thread shared one =
      returned-Trades thread (record shared { store = store })
  verified-Trades (ok (some account), store) thread shared one = (omega arith, (one, tt))

  module _ (accounts : Accounts S) (session_ttl : ℕ) where
    resumed-Trades :
        (phase : Phase) (thread : Thread) (shared : Shared S)
        → Holding thread
        → Trades shared.free thread.held (resumed accounts session_ttl phase thread shared)
    unfolding resumed
    resumed-Trades (verifying username password) thread shared one =
        verified-Trades (accounts.verify_credentials username password shared.store) thread shared
          one
    resumed-Trades (creating account) thread shared one =
        returned-Trades thread
          (record shared { store = (accounts.create_session account session_ttl shared.store).1 })

    -- Each login that waits holds one permit, and the free and the held ones make up the pool.
    abbrev Balanced : ℕ → System accounts session_ttl → Type 0
    Balanced total s = (s.shared.free + held s.threads ≡ total) × All Holding s.threads

    traded :
        (total : ℕ) (s : System accounts session_ttl) (before after : List Thread) (thread : Thread)
        (result : List Thread × Shared S)
        → Balanced total s
        → s.threads ≡ before ++ (thread ∷ after)
        → (Holding thread → Trades s.shared.free thread.held result)
        → Balanced total (record { shared = result.1; threads = before ++ (result.0 ++ after) })
    traded total s before after thread result (sum, all) split trades =
        let (first, (one, rest)) =
          All-split before (thread ∷ after) (subst (All Holding) split all) in
        let (kept, new) = trades one in
        let counted = ap held split ∙ held-append before (thread ∷ after) in
        (
          omega (
            arith,
            sum,
            counted,
            kept,
            held-append before (result.0 ++ after),
            held-append result.0 after,
          ),
          All-append before (result.0 ++ after) first (All-append result.0 after new rest),
        )

    Step-Balanced :
        (total : ℕ) (s t : System accounts session_ttl)
        → Balanced total s
        → Step accounts session_ttl s t
        → Balanced total t
    Step-Balanced total s t (sum, all) (arrive username password result went same) =
        let (kept, new) =
          subst (Trades s.shared.free 0) went (acquired-Trades username password s.shared) in
        subst (Balanced total) (sym same) (
          omega (arith, sum, kept, held-append result.0 s.threads),
          All-append result.0 s.threads new all,
        )
    Step-Balanced total s t balanced (go_on before after thread result split went same) =
        subst (Balanced total) (sym same) (
          traded total s before after thread result balanced split (λ one.
            subst (Trades s.shared.free thread.held) went
              (resumed-Trades thread.phase thread s.shared one)))
    Step-Balanced total s t balanced (cancel before after thread store result split went same) =
        subst (Balanced total) (sym same) (
          traded total s before after thread result balanced split (λ one.
            subst (Trades s.shared.free thread.held) went
              (returned-Trades thread (record s.shared { store = store }))))

    Reach-Balanced :
        (capacity : ℕ) (store : S) (s : System accounts session_ttl)
        → Reach accounts session_ttl capacity store s
        → Balanced (with_capacity capacity) s
    Reach-Balanced capacity store s start = (omega arith, tt)
    Reach-Balanced capacity store t (next {s} reach step) =
        Step-Balanced (with_capacity capacity) s t (Reach-Balanced capacity store s reach) step

    -- However logins arrive, go on and are cancelled, and whatever the store answers: no more logins wait for the verification of a
    -- password at once than the pool has permits, and the free permits and those that the waiting logins hold are all the pool's.
    pub Reach-verifications :
        (capacity : ℕ) (store : S) (s : System accounts session_ttl)
        → Reach accounts session_ttl capacity store s
        → (verifications s.threads ≤ with_capacity capacity)
          × (s.shared.free + held s.threads ≡ with_capacity capacity)
    Reach-verifications capacity store s reach =
        let (sum, all) = Reach-Balanced capacity store s reach in
        (omega (arith, sum, verifications-le-held s.threads all), sum)
