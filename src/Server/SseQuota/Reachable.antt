-- ===== src/Server/SseQuota/Reachable.antt =====
-- What holds of a quota in every state that the steps of its requests lead to.
use flaps.Prelude.{
  ℕ, ◌+◌, ◌^◌, ◌≤◌, ◌<◌, ◌≡◌, refl, sym, ap, ◌∙◌, String, Option, none, some, List, [], ◌∷◌, ◌++◌,
  arith,
}
use flaps.Prelude.Map
use flaps.Server.SseQuota.{
  SseQuota, SseQuotaConfig, new, permits, permits_or, try_acquire_owned, ensure_key, set_permits,
  release_global, count_active, count_closed, release_key, active_subscriptions_for_key, held_of,
  count_rejected,
}
use flaps.Server.SseQuota.Threads.{
  Phase, reserved, found, refused, unwinding, admitted, live, closing, closing_key, Thread, System,
  Step, arrive, turn_away, go_on, Reach, here, next, advance, take_key, moved, start,
}
use flaps.Server.SseQuota.Balance.{
  Balanced, Trades, advance-Trades, globals, keys, lives, has_key, is_live, of_key, of_key-zero,
  globals-append, keys-append, lives-append, lives-le-globals, take_suc,
}

module _ (config : SseQuotaConfig) (fits : config.max_global + 1 < 2 ^ 64) where
  go_on-Balanced :
      (quota : SseQuota) (before after : List Thread) (thread : Thread)
      → Balanced config (record { quota = quota; threads = before ++ (thread ∷ after) })
      → Balanced config (record {
        quota = (advance thread.phase thread.key quota).1;
        threads = before ++ (moved (advance thread.phase thread.key quota).0 thread.key ++ after);
      })
  go_on-Balanced quota before after thread h = record {
    global = omega (
      arith,
      h.global,
      trades.global,
      globals-append before (thread ∷ after),
      globals-append before (rest ++ after),
      globals-append rest after,
    );
    per_key = λ j. omega (
      arith,
      h.per_key j,
      trades.per_key j,
      keys-append j before (thread ∷ after),
      keys-append j before (rest ++ after),
      keys-append j rest after,
    );
    counted = omega (
      arith,
      trades.counted (lives before + lives after) total bound,
      lives-append before (rest ++ after),
      lives-append rest after,
    );
  }
    where
      trades : Trades thread.phase thread.key quota (advance thread.phase thread.key quota)
      trades = advance-Trades thread.phase thread.key quota

      rest : List Thread
      rest = moved (advance thread.phase thread.key quota).0 thread.key

      total : quota.active_subscriptions ≡ lives before + lives after + is_live thread.phase
      total = omega (arith, h.counted, lives-append before (thread ∷ after))

      bound : lives before + lives after + is_live thread.phase + 1 < 2 ^ 64
      bound =
          omega
            (arith, fits, h.global, h.counted, total, lives-le-globals (before ++ (thread ∷ after)))

  Step-Balanced : (s t : System) → Step s t → Balanced config s → Balanced config t
  unfolding count_rejected permits
  Step-Balanced s t (arrive key left took same) h = rw same (record {
    global = omega (arith, h.global, take_suc s.quota.global left took);
    per_key = λ j. omega (arith, h.per_key j, of_key-zero key j);
    counted = omega (arith, h.counted);
  })
  Step-Balanced s t (turn_away full same) h =
      rw same (record { global = h.global; per_key = h.per_key; counted = h.counted })
  Step-Balanced s t (go_on before after thread there same) h =
      rw same (go_on-Balanced s.quota before after thread (rw there at h))

  start-Balanced : Balanced config (start config)
  unfolding start new permits permits_or Map.get
  start-Balanced = record { global = omega arith; per_key = λ j. omega arith; counted = refl }

  Reach-Balanced : (s : System) → Reach (start config) s → Balanced config s
  Reach-Balanced s here = start-Balanced
  Reach-Balanced s (next {t} before step) = Step-Balanced t s step (Reach-Balanced t before)

take_key-max_per_key :
    (key : String) (free : Option ℕ) (q : SseQuota)
    → (take_key key free q).1.max_per_key ≡ q.max_per_key
unfolding take_key set_permits
take_key-max_per_key key none q = refl
take_key-max_per_key key (some left) q = refl

advance-max_per_key :
    (phase : Phase) (key : String) (q : SseQuota)
    → (advance phase key q).1.max_per_key ≡ q.max_per_key
unfolding advance ensure_key set_permits count_rejected release_global count_active count_closed
    release_key
advance-max_per_key reserved key q = refl
advance-max_per_key found key q = take_key-max_per_key key (try_acquire_owned (permits key q)) q
advance-max_per_key refused key q = refl
advance-max_per_key unwinding key q = refl
advance-max_per_key admitted key q = refl
advance-max_per_key live key q = refl
advance-max_per_key closing key q = refl
advance-max_per_key closing_key key q = refl

Step-max_per_key : (s t : System) → Step s t → t.quota.max_per_key ≡ s.quota.max_per_key
unfolding count_rejected
Step-max_per_key s t (arrive key left took same) = ap (λ x. x.quota.max_per_key) same
Step-max_per_key s t (turn_away full same) = ap (λ x. x.quota.max_per_key) same
Step-max_per_key s t (go_on before after thread there same) =
    ap (λ x. x.quota.max_per_key) same ∙ advance-max_per_key thread.phase thread.key s.quota

Reach-max_per_key :
    (config : SseQuotaConfig) (s : System)
    → Reach (start config) s
    → s.quota.max_per_key ≡ config.max_per_key
unfolding start new
Reach-max_per_key config s here = refl
Reach-max_per_key config s (next {t} before step) =
    Step-max_per_key t s step ∙ Reach-max_per_key config t before

-- The streams that a key has open.
abbrev pub streams : String → List Thread → ℕ
streams key [] = 0
streams key (t ∷ ts) = of_key key t.key (is_live t.phase) + streams key ts

streams-le-keys : (key : String) (ts : List Thread) → streams key ts ≤ keys key ts
streams-le-keys key [] = omega arith
streams-le-keys key (t ∷ ts) = omega (arith, le_phase t.phase, streams-le-keys key ts)
  where
    le_phase : (p : Phase) → of_key key t.key (is_live p) ≤ of_key key t.key (has_key p)
    le_phase reserved = omega arith
    le_phase found = omega arith
    le_phase refused = omega arith
    le_phase unwinding = omega arith
    le_phase admitted = ground arith
    le_phase live = omega arith
    le_phase closing = ground arith
    le_phase closing_key = ground arith

held-keys :
    (max held : ℕ) (found : Option ℕ) → permits_or max found + held ≡ max → held_of max found ≡ held
unfolding permits_or held_of
held-keys max held none e = omega arith
held-keys max held (some free) e = omega arith

-- In every state that any interleaving of requests reaches from a new quota, where the global limit is below the
-- largest 64-bit number, no more streams are open than the global limit, no more of one key than the limit of a key,
-- the active count is the number of open streams, and what `active_subscriptions_for_key` returns is the number
-- of the key's permits that are held and at least the number of its open streams.
pub Reach-limits :
    (config : SseQuotaConfig)
    → config.max_global + 1 < 2 ^ 64
    → (s : System) → Reach (start config) s
    → lives s.threads ≤ config.max_global
      × (s.quota.active_subscriptions ≡ lives s.threads
          × ((key : String)
              → streams key s.threads ≤ config.max_per_key
                × (active_subscriptions_for_key key s.quota ≡ keys key s.threads
                    × streams key s.threads ≤ active_subscriptions_for_key key s.quota)))
unfolding active_subscriptions_for_key permits
Reach-limits config fits s reach = (
  omega (arith, holds.global, lives-le-globals s.threads),
  (
    holds.counted,
    λ key. (
      omega (arith, holds.per_key key, streams-le-keys key s.threads),
      (held key, omega (arith, held key, streams-le-keys key s.threads)),
    ),
  ),
)
  where
    holds : Balanced config s
    holds = Reach-Balanced config fits s reach

    max_per_key-kept : s.quota.max_per_key ≡ config.max_per_key
    max_per_key-kept = Reach-max_per_key config s reach

    held : (key : String) → active_subscriptions_for_key key s.quota ≡ keys key s.threads
    held key =
        held-keys s.quota.max_per_key (keys key s.threads) (Map.get key s.quota.per_key)
          (holds.per_key key ∙ sym max_per_key-kept)

-- In every reachable state where all requests are over, where the global limit is below the largest 64-bit number,
-- all permits are free, globally and for each key, and the active count is zero.
pub Reach-idle :
    (config : SseQuotaConfig)
    → config.max_global + 1 < 2 ^ 64
    → (s : System) → Reach (start config) s
    → s.threads ≡ []
    → s.quota.global ≡ config.max_global
      × (s.quota.active_subscriptions ≡ 0
          × ((key : String) → permits key s.quota ≡ config.max_per_key))
Reach-idle config fits s reach idle = (
  omega (arith, holds.global, ap globals idle),
  (holds.counted ∙ ap lives idle, λ key. omega (arith, holds.per_key key, ap (keys key) idle)),
)
  where
    holds : Balanced config s
    holds = Reach-Balanced config fits s reach
