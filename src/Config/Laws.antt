-- ===== src/Config/Laws.antt =====
-- What a configuration that was loaded satisfies.
use mathlib.Core.Option
use family_tree_identity_mic.Shared.{
  ℕ, ◌+◌, ◌^◌, ◌≤◌, ◌<◌, ◌≡◌, ℤ, pos, negsuc, refl, ◌⊎◌, inl, inr, String, Bool-cases, false,
  Option, none, some, [], ◌∷◌, arith, Text, codes, ◌==◌, same, is_empty, trim_space,
  trim_space_idem,
}
use family_tree_identity_mic.Config.Parse.{parse_int32, parse_below, negated}
use family_tree_identity_mic.Config.{
  valid, Duration, seconds, Env, Config, PostgresConfig, TokenConfig, new_config, positive,
  duration_from_env, bool_from_env, int32_from_env, string_from_env, postgres_url,
  load_postgres_config, load_token_config, load, default_access_ttl, default_postgres_url,
}

positive-lt : (key : String) (o : Option ℤ) (n : ℕ) → positive key o ≡ valid n → 0 < n
unfolding positive
positive-lt key none n e = absurd (ground arith)
positive-lt key (some (negsuc m)) n e = absurd (ground arith)
positive-lt key (some (pos m)) n e = ground arith

-- What `ParseInt` accepts fits 32 bits.
abbrev Fits : Option ℤ → Type 0
Fits none = Unit {0}
Fits (some (pos n)) = n < 2 ^ 31
Fits (some (negsuc n)) = n < 2 ^ 31

parse_below-lt : (bound : ℕ) (s : Text) (n : ℕ) → parse_below bound s ≡ some n → n < bound
unfolding parse_below
parse_below-lt bound [] n e = absurd (ground arith)
parse_below-lt bound (c ∷ s) n e = ground arith

map-Fits : (o : Option ℕ) → ((n : ℕ) → o ≡ some n → n < 2 ^ 31) → Fits (Option.map pos o)
map-Fits none h = tt
map-Fits (some n) h = h n refl

negated-Fits :
    (o : Option ℕ) → ((n : ℕ) → o ≡ some n → n < 2 ^ 31 + 1) → Fits (Option.map negated o)
negated-Fits none h = tt
negated-Fits (some ℕ.zero) h = ground arith
negated-Fits (some (ℕ.suc n)) h = ground (arith, h (ℕ.suc n) refl)

parse_int32-Fits : (s : Text) → Fits (parse_int32 s)
unfolding parse_int32
parse_int32-Fits [] = tt
parse_int32-Fits (c ∷ s) = elim (Bool-cases (c == b'-')) [
  | inl minus ↦
      rw minus
        (negated-Fits (parse_below (2 ^ 31 + 1) s) (λ n e. parse_below-lt (2 ^ 31 + 1) s n e))
  | inr other ↦ elim (Bool-cases (c == b'+')) [
    | inl plus ↦
        rw (other, plus) (map-Fits (parse_below (2 ^ 31) s) (λ n e. parse_below-lt (2 ^ 31) s n e))
    | inr digit ↦
        rw (other, digit)
          (map-Fits (parse_below (2 ^ 31) (c ∷ s)) (λ n e. parse_below-lt (2 ^ 31) (c ∷ s) n e))
  ]
]

positive-Fits :
    (key : String) (o : Option ℤ) (n : ℕ) → Fits o → positive key o ≡ valid n → n < 2 ^ 31
unfolding positive
positive-Fits key none n h e = absurd (ground arith)
positive-Fits key (some (negsuc m)) n h e = absurd (ground arith)
positive-Fits key (some (pos m)) n h e = ground arith

module _ (parse_duration : Text → Option ℤ) (env : Env) where
  duration_from_env-lt :
      (key : String) (default d : Duration)
      → 0 < default
      → duration_from_env parse_duration env key default ≡ valid d
      → 0 < d
  unfolding duration_from_env
  duration_from_env-lt key default d h e =
      ground (arith, positive-lt key (parse_duration (trim_space (env key))) d)

  int32_from_env-bounds :
      (key : String) (default n : ℕ)
      → 0 < default
      → default < 2 ^ 31
      → int32_from_env parse_duration env key default ≡ valid n
      → (0 < n) × (n < 2 ^ 31)
  unfolding int32_from_env
  int32_from_env-bounds key default n low high e = ground (
    arith,
    positive-lt key (parse_int32 (trim_space (env key))) n,
    positive-Fits key (parse_int32 (trim_space (env key))) n
        (parse_int32-Fits (trim_space (env key))),
  )

  pub record IsPostgresConfig (environment : Text) (c : PostgresConfig) : Type 0 where
    pub url :
        (c.url ≡ trim_space (env "IDENTITY_POSTGRES_URL"))
        ⊎ ((c.url ≡ default_postgres_url) × (same environment (codes "production") ≡ false))
    pub connections :
        (0 < c.min_connections)
        × (c.min_connections ≤ c.max_connections)
        × (c.max_connections < 2 ^ 31)
    pub durations :
        (0 < c.max_conn_lifetime)
        × (0 < c.max_conn_idle_time)
        × (0 < c.health_check_period)
        × (0 < c.connect_timeout)

  postgres_url-from :
      (environment url : Text)
      → postgres_url parse_duration env environment ≡ valid url
      → (url ≡ trim_space (env "IDENTITY_POSTGRES_URL"))
        ⊎ ((url ≡ default_postgres_url) × (same environment (codes "production") ≡ false))
  unfolding postgres_url
  postgres_url-from environment url e = ground arith

  load_postgres_config-IsPostgresConfig :
      (environment : Text) (c : PostgresConfig)
      → load_postgres_config parse_duration env environment ≡ valid c
      → IsPostgresConfig environment c
  unfolding load_postgres_config
  load_postgres_config-IsPostgresConfig environment c e = record {
    url = ground (arith, postgres_url-from environment c.url);
    connections = ground (
      arith,
      int32_from_env-bounds "IDENTITY_POSTGRES_MAX_CONNECTIONS" 10 c.max_connections,
      int32_from_env-bounds "IDENTITY_POSTGRES_MIN_CONNECTIONS" 1 c.min_connections,
    );
    durations = ground (
      arith,
      duration_from_env-lt "IDENTITY_POSTGRES_MAX_CONN_LIFETIME" (seconds 1800) c.max_conn_lifetime,
      duration_from_env-lt "IDENTITY_POSTGRES_MAX_CONN_IDLE_TIME" (seconds 300)
          c.max_conn_idle_time,
      duration_from_env-lt "IDENTITY_POSTGRES_HEALTH_CHECK_PERIOD" (seconds 15)
          c.health_check_period,
      duration_from_env-lt "IDENTITY_POSTGRES_CONNECT_TIMEOUT" (seconds 5) c.connect_timeout,
    );
  }

  pub record IsTokenConfig (environment : Text) (c : TokenConfig) : Type 0 where
    pub private_key :
        (c.access_private_key_base64 ≡ trim_space (env "IDENTITY_ACCESS_TOKEN_PRIVATE_KEY_BASE64"))
        × ((is_empty c.access_private_key_base64 ≡ false)
            ⊎ (same environment (codes "production") ≡ false))
    pub ttls : (0 < c.access_ttl) × (c.access_ttl < c.refresh_ttl)

  load_token_config-IsTokenConfig :
      (environment : Text) (c : TokenConfig)
      → load_token_config parse_duration env environment ≡ valid c
      → IsTokenConfig environment c
  unfolding load_token_config
  load_token_config-IsTokenConfig environment c e = record {
    private_key = (ground arith, ground arith);
    ttls =
        ground
          (arith, duration_from_env-lt "IDENTITY_ACCESS_TOKEN_TTL" default_access_ttl c.access_ttl);
  }

  pub record IsConfig (c : Config) : Type 0 where
    pub postgres : IsPostgresConfig c.app.environment c.postgres
    pub tokens : IsTokenConfig c.app.environment c.tokens
    pub durations :
        (0 < c.grpc.shutdown_timeout)
        × (0 < c.grpc.readiness_check_interval)
        × (0 < c.grpc.readiness_check_timeout)

  -- A configuration that is loaded has positive durations, a refresh token that outlives the access
  -- token, at least one and at most 2 ^ 31 - 1 connections with the minimum not above the maximum.
  -- Its private key is the one that the environment sets, and its database too, or the default one
  -- outside production; in production a private key is set.
  pub load-IsConfig : (c : Config) → load parse_duration env ≡ valid c → IsConfig c
  unfolding load new_config
  load-IsConfig c e = record {
    postgres = ground (arith, load_postgres_config-IsPostgresConfig c.app.environment c.postgres);
    tokens = ground (arith, load_token_config-IsTokenConfig c.app.environment c.tokens);
    durations = ground (
      arith,
      duration_from_env-lt "IDENTITY_SHUTDOWN_TIMEOUT" (seconds 10) c.grpc.shutdown_timeout,
      duration_from_env-lt "IDENTITY_GRPC_READINESS_CHECK_INTERVAL" (seconds 5)
          c.grpc.readiness_check_interval,
      duration_from_env-lt "IDENTITY_GRPC_READINESS_CHECK_TIMEOUT" (seconds 2)
          c.grpc.readiness_check_timeout,
    );
  }

-- White space around the texts of the environment makes no difference.
pub load-trim_space :
    (parse_duration : Text → Option ℤ) (env : Env)
    → load parse_duration (λ key. trim_space (env key)) ≡ load parse_duration env
unfolding load load_postgres_config load_token_config postgres_url duration_from_env bool_from_env
    int32_from_env string_from_env
load-trim_space parse_duration env = simp trim_space_idem
