-- ===== src/App.antt =====
-- internal/app/app.go: what `Run` starts before it serves, or the error with which it returns. The
-- libraries are parameters, as is the pool that is opened and the key that is drawn. Durations are
-- counted in nanoseconds, also the time to live of the signer.
pub mod Started
use family_tree_identity_mic.Shared.{
  ℕ, ℤ, pos, String, Bool, true, false, Text, codes, same, is_empty, if◌then◌else◌,
}
use family_tree_identity_mic.Domain.Errors.{Error, foreign, wrap, Result, ok, err}
use family_tree_identity_mic.Config.{Config, PostgresConfig, TokenConfig, Duration}
use family_tree_identity_mic.Mailer.{UrlLibrary, LogMailer, new_log_mailer}
use family_tree_identity_mic.Security.Base64.{Bytes}
use family_tree_identity_mic.Security.AccessToken.{
  Signer, PublicKeyInfo, new_signer, new_ephemeral_signer, public_key_info,
}
use family_tree_identity_mic.Platform.GrpcServer.{
  Server, new_server, with_readiness_check, with_readiness_timing,
}
use family_tree_identity_mic.Platform.Logger.{Zap, Logger, LoggerSettings, new_logger}

-- What `Run` calls that is not code of the repository: zap, `strings.ToLower`, net/url, the pool of
-- `postgres.Open`, and the private key that `ed25519.GenerateKey` draws.
pub record Libraries (L U : Type 0) : Type 0 where
  pub zap : Zap L
  pub to_lower : Text → Text
  pub urls : UrlLibrary U
  pub open_pool : PostgresConfig → Result (Unit {0})
  pub generated_key : Result Bytes

-- What is put together before the server runs.
pub record Parts (L U : Type 0) : Type 0 where
  pub logger : Logger L
  pub mailer : LogMailer U
  pub signer : Signer
  pub refresh_ttl : Duration
  pub public_key : PublicKeyInfo
  pub server : Server

-- `if err != nil { return fmt.Errorf("context: %w", err) }`.
abbrev pub then_with : {A B : Type 0} → String → Result A → (A → Result B) → Result B
then_with context (ok a) f = f a
then_with context (err e) f = err (wrap context e)

-- Lines 104 to 112.
abbrev pub server_of : Config → Server
server_of c =
    with_readiness_timing (pos c.grpc.readiness_check_interval) (pos c.grpc.readiness_check_timeout)
      (with_readiness_check "postgres" new_server)

abbrev pub settings_of : Config → LoggerSettings
settings_of c = record {
  service_name = c.app.name;
  environment = c.app.environment;
  level = c.logger.level;
}

module _ {L U : Type 0} (libraries : Libraries L U) where
  -- Lines 65 to 84.
  unfoldable pub signer_for : TokenConfig → Result Signer
  signer_for t =
      if is_empty t.access_private_key_base64
      then new_ephemeral_signer libraries.generated_key t.access_key_id t.access_issuer
          t.access_audience (pos t.access_ttl)
      else new_signer t.access_private_key_base64 t.access_key_id t.access_issuer t.access_audience
          (pos t.access_ttl)

  -- Lines 22 to 112.
  unfoldable pub start : Config → Result (Parts L U)
  start c =
      then_with "initialize logger" (new_logger libraries.zap libraries.to_lower (settings_of c))
        λ logger.
          if same c.app.environment (codes "production")
          then err (foreign "production identity mailer is not configured")
          else then_with "initialize PostgreSQL" (libraries.open_pool c.postgres) λ x.
            then_with "initialize identity mailer"
              (new_log_mailer libraries.urls c.email.verification_url c.email.password_reset_url)
              λ mailer. then_with "initialize access token signer" (signer_for c.tokens) λ signer.
                ok (record {
                  logger = logger;
                  mailer = mailer;
                  signer = signer;
                  refresh_ttl = c.tokens.refresh_ttl;
                  public_key = public_key_info signer;
                  server = server_of c;
                })
