-- ===== src/Security/AuthLimits/Serving.antt =====
-- `AuthRateLimiter.check` over a sequence of calls, with the dicts of the process as its backend.
use enterprise_llm_assistant.Core.Settings.{Settings, seconds}
use enterprise_llm_assistant.Clients.Redis.{Redis}
use enterprise_llm_assistant.Prelude.{
  ℕ, ◌≤◌, String, Bool, true, false, Option, none, List, [], ◌∷◌, ◌++◌, ◌≡◌, arith, ap, inl, inr,
}
use enterprise_llm_assistant.Prelude.{◌==◌, string_eq, if◌then◌else◌, ltb, length, select, ==_cases}
use enterprise_llm_assistant.Prelude.Dict
use enterprise_llm_assistant.Prelude.Exec.{Result, ok, raised}
use enterprise_llm_assistant.Security.AuthLimits.{
  RateLimiter, Buckets, bucket_of, admit, check, active_redis, too_many,
}
use enterprise_llm_assistant.Security.AuthLimits.Window.{
  Tracks, Tracks-nil, Tracks-later, admit-Tracks, admit-window, noted, noted-IsBounded, in_window,
  IsBounded,
}

-- The calls that were let in, oldest first.
abbrev pub Log : Type 0
Log = List (String × ℕ)

abbrev pub times_of : String → Log → List ℕ
times_of key [] = []
times_of key ((k, t) ∷ log) = let rest = times_of key log in if key == k then t ∷ rest else rest

abbrev pub note : Result (Unit {0}) → String → ℕ → Log → Log
note (ok _) key now log = log ++ (key, now) ∷ []
note (raised _) key now log = log

abbrev answer : Bool → Result (Unit {0})
answer admitted = if admitted then ok tt else raised too_many

times_of-append :
    (j key : String) (now : ℕ) (log : Log)
    → times_of j (log ++ (key, now) ∷ [])
      ≡ (if j == key then times_of j log ++ now ∷ [] else times_of j log)
times_of-append j key now [] = ground arith
times_of-append j key now (e ∷ log) = ground (arith, times_of-append j key now log)

times_of-note :
    (j key : String) (admitted : Bool) (now : ℕ) (log : Log)
    → times_of j (note (answer admitted) key now log)
      ≡ (if j == key then noted admitted now (times_of j log) else times_of j log)
times_of-note j key true now log = times_of-append j key now log
times_of-note j key false now log = ground arith

bucket_of-insert :
    (j key : String) (bucket : List ℕ) (buckets : Buckets)
    → bucket_of j (Dict.insert key bucket buckets)
      ≡ (if j == key then bucket else bucket_of j buckets)
unfolding bucket_of
bucket_of-insert j key bucket buckets =
    rw (Dict.lookup-insert j key bucket buckets, bucket_of) (ground arith)

module _ (R : Redis) (cfg : Settings) where
  -- The calls in turn, from a limiter and a log of the calls before.
  pub serve : List (ℕ × String) → RateLimiter R.State → Log → RateLimiter R.State × Log
  serve [] l log = (l, log)
  serve ((now, key) ∷ calls) l log =
      let (r, l') = check R cfg now key l in serve calls l' (note r key now log)

  abbrev pub IsNondecreasing : ℕ → List (ℕ × String) → Type 0
  IsNondecreasing last [] = Unit
  IsNondecreasing last ((now, _) ∷ calls) = (last ≤ now) × IsNondecreasing now calls

  abbrev pub last_of : ℕ → List (ℕ × String) → ℕ
  last_of last [] = last
  last_of last ((now, _) ∷ calls) = last_of now calls

  -- A limiter that has served nothing.
  abbrev pub started : Option R.State → RateLimiter R.State
  started redis = record { redis = redis; buckets = [] }

  abbrev pub window : ℕ
  window = seconds cfg.auth_rate_limit_window_seconds

  pub record IsTracked (last : ℕ) (l : RateLimiter R.State) (log : Log) : Type 0 where
    pub in_memory : active_redis cfg l.redis ≡ none
    pub tracked : (j : String) → Tracks window last (bucket_of j l.buckets) (times_of j log)
    pub bounded : (j : String) → IsBounded window cfg.auth_rate_limit_requests (times_of j log)

  abbrev admission : ℕ → String → RateLimiter R.State → Bool × List ℕ
  admission now key l = admit cfg.auth_rate_limit_requests window now (bucket_of key l.buckets)

  check-admission :
      (now : ℕ) (key : String) (l : RateLimiter R.State)
      → active_redis cfg l.redis ≡ none
      → check R cfg now key l ≡ (
        answer (admission now key l).0,
        record l { buckets = Dict.insert key (admission now key l).1 l.buckets },
      )
  unfolding check
  check-admission now key l in_memory = rw (in_memory, check) (ground arith)

  Tracks-after :
      {last : ℕ} {l : RateLimiter R.State} {log : Log} (now : ℕ) (key j : String)
      → last ≤ now
      → IsTracked last l log
      → Tracks window now
          (bucket_of j (Dict.insert key (admission now key l).1 l.buckets))
          (times_of j (note (answer (admission now key l).0) key now log))
  Tracks-after {l} {log} now key j h t =
      rw (bucket_of-insert j key, times_of-note j key)
        (elim (==_cases j key) [
          | inl (same, e) ↦
              rw (same, e) (admit-Tracks window cfg.auth_rate_limit_requests now h (t.tracked key))
          | inr (differ, _) ↦ rw differ (Tracks-later window h (t.tracked j))
        ])

  IsBounded-after :
      {last : ℕ} {l : RateLimiter R.State} {log : Log} (now : ℕ) (key j : String)
      → last ≤ now
      → IsTracked last l log
      → IsBounded window cfg.auth_rate_limit_requests
          (times_of j (note (answer (admission now key l).0) key now log))
  IsBounded-after {l} {log} now key j h t at = rw (times_of-note j key) (elim (==_cases j key) [
    | inl (same, e) ↦
        rw (same, e)
          (noted-IsBounded window cfg.auth_rate_limit_requests now h (t.tracked key) (t.bounded key)
            at)
    | inr (differ, _) ↦ rw differ (t.bounded j at)
  ])

  pub IsTracked-check :
      {last : ℕ} {l : RateLimiter R.State} {log : Log} (now : ℕ) (key : String)
      → last ≤ now
      → IsTracked last l log
      → IsTracked now (check R cfg now key l).1 (note (check R cfg now key l).0 key now log)
  IsTracked-check {l} {log} now key h t = rw (check-admission now key l t.in_memory) (record {
    in_memory = t.in_memory;
    tracked = λ j. Tracks-after now key j h t;
    bounded = λ j. IsBounded-after now key j h t;
  })

  pub IsTracked-serve :
      (calls : List (ℕ × String)) {last : ℕ} {l : RateLimiter R.State} {log : Log}
      → IsNondecreasing last calls
      → IsTracked last l log
      → IsTracked (last_of last calls) (serve calls l log).0 (serve calls l log).1
  unfolding serve
  IsTracked-serve [] h t = t
  IsTracked-serve ((now, key) ∷ calls) h t =
      IsTracked-serve calls h.1 (IsTracked-check now key h.0 t)

  pub IsTracked-start :
      (redis : Option R.State) → active_redis cfg redis ≡ none → IsTracked 0 (started redis) []
  unfolding bucket_of Dict.lookup
  IsTracked-start redis in_memory = record {
    in_memory = in_memory;
    tracked = λ j. Tracks-nil window 0;
    bounded = λ j at. omega arith;
  }

  -- With the dicts of the process as its backend, and calls in order of time, the limiter lets in at most
  -- `AUTH_RATE_LIMIT_REQUESTS` calls of a key within any window, wherever the window ends.
  pub limit_in_every_window :
      (redis : Option R.State) (calls : List (ℕ × String)) (key : String) (at : ℕ)
      → active_redis cfg redis ≡ none
      → IsNondecreasing 0 calls
      → length (select (in_window window at) (times_of key (serve calls (started redis) []).1))
        ≤ cfg.auth_rate_limit_requests
  limit_in_every_window redis calls key at in_memory h =
      (IsTracked-serve calls h (IsTracked-start redis in_memory)).bounded key at

  -- With the dicts of the process as its backend, after calls in order of time, a further call of a key is
  -- let in if fewer calls of the key than `AUTH_RATE_LIMIT_REQUESTS` were let in within the window that
  -- ends now, and is refused with status 429 if not.
  pub check-window :
      (redis : Option R.State) (calls : List (ℕ × String)) (now : ℕ) (key : String)
      → active_redis cfg redis ≡ none
      → IsNondecreasing 0 calls
      → last_of 0 calls ≤ now
      → let (l, log) = serve calls (started redis) [] in
        (check R cfg now key l).0 ≡ (
          if ltb
            (length (select (in_window window now) (times_of key log)))
            cfg.auth_rate_limit_requests
          then ok tt
          else raised too_many)
  check-window redis calls now key in_memory h later =
      let t = IsTracked-serve calls h (IsTracked-start redis in_memory) in
      rw (check-admission now key (serve calls (started redis) []).0 t.in_memory)
        (ap answer (admit-window window cfg.auth_rate_limit_requests now later (t.tracked key)))
