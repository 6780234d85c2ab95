-- ===== src/App/Started.antt =====
-- What holds of a service that starts on a configuration that was loaded.
use family_tree_identity_mic.Shared.{
  ℕ, zero, suc, subst, String, ℤ, pos, ◌<◌, ◌≡◌, refl, ◌⊎◌, inl, inr, ◌∙◌, ap, sym, Bool-cases,
  true, false, Option, some, none, arith, List, Text, codes, length, same, is_empty,
}
use family_tree_identity_mic.Domain.Errors.{Result, Result-cases, ok, err}
use family_tree_identity_mic.Config.{Config, TokenConfig, Env, load, valid}
use family_tree_identity_mic.Config.Laws.{load-IsConfig}
use family_tree_identity_mic.Mailer.{LogMailer, new_log_mailer, absolute}
use family_tree_identity_mic.Security.Base64.{Bytes}
use family_tree_identity_mic.Security.AccessToken.{
  Signer, new_signer, new_ephemeral_signer, signer_of, public_key_info, decode_base64,
}
use family_tree_identity_mic.Security.AccessToken.Keys.{
  IsSigner, signer_of-IsSigner, new_signer-IsSigner,
}
use family_tree_identity_mic.Platform.GrpcServer.{
  with_readiness_check, with_readiness_timing, if_positive, Check, Server, serve, started,
}
use family_tree_identity_mic.Platform.Logger.{Logger, new_logger}
use family_tree_identity_mic.App.{
  Libraries, Parts, then_with, server_of, settings_of, signer_for, start,
}

signer_of-ttl :
    (key : Bytes) (key_id issuer audience : Text) (ttl : ℕ) (signer : Signer)
    → signer_of key key_id issuer audience (pos ttl) ≡ ok signer
    → signer.ttl ≡ ttl
unfolding signer_of
signer_of-ttl key key_id issuer audience ttl signer e = ground arith

new_signer-ttl :
    (key key_id issuer audience : Text) (ttl : ℕ) (signer : Signer)
    → new_signer key key_id issuer audience (pos ttl) ≡ ok signer
    → signer.ttl ≡ ttl
unfolding new_signer
new_signer-ttl key key_id issuer audience ttl signer e = elim (Result-cases (decode_base64 key)) [
  | inl (failure, h) ↦ absurd (ground arith)
  | inr (bytes, h) ↦ ground (arith, signer_of-ttl bytes key_id issuer audience ttl signer)
]

then_with-inverted :
    {A B : Type 0} (context : String) (r : Result A) (f : A → Result B) {b : B}
    → then_with context r f ≡ ok b
    → (a : A) × (r ≡ ok a) × (f a ≡ ok b)
then_with-inverted context (ok a) f e = (a, refl, e)
then_with-inverted context (err x) f e = absurd (ground arith)

serve_lem :
    (n : ℕ) (checks : List Check) (server : Server)
    → 0 < n
    → serve (pos n) checks server ≡ ok (started checks server)
unfolding serve
serve_lem zero checks server h = absurd (omega arith)
serve_lem (suc n) checks server h = refl

if_positive_lem : (n old : ℕ) → 0 < n → if_positive (pos n) old ≡ n
unfolding if_positive
if_positive_lem zero old h = absurd (omega arith)
if_positive_lem (suc n) old h = refl

module _ {L U : Type 0} (libraries : Libraries L U) where
  abbrev pub IsAbsolute : U → Type 0
  IsAbsolute url =
      (is_empty (libraries.urls.scheme url) ≡ false) × (is_empty (libraries.urls.host url) ≡ false)

  -- The key that signs is the configured one, or one that was drawn when none is configured.
  abbrev pub IsKeyOf : TokenConfig → Bytes → Type 0
  IsKeyOf t key =
      ((is_empty t.access_private_key_base64 ≡ true) × (libraries.generated_key ≡ ok key))
      ⊎ ((is_empty t.access_private_key_base64 ≡ false)
          × (decode_base64 t.access_private_key_base64 ≡ ok key))

  signer_for-IsSigner :
      (t : TokenConfig) (signer : Signer)
      → ((key : Bytes) → libraries.generated_key ≡ ok key → length key ≡ 64)
      → signer_for libraries t ≡ ok signer
      → IsSigner signer × IsKeyOf t signer.private_key × (signer.ttl ≡ t.access_ttl)
  unfolding signer_for new_ephemeral_signer
  signer_for-IsSigner t signer exact e = elim (Bool-cases (is_empty t.access_private_key_base64)) [
    | inl unset ↦ elim (Result-cases libraries.generated_key) [
      | inl (f, h) ↦ absurd (ground arith)
      | inr (key, h) ↦
          let made : (signer_of key t.access_key_id t.access_issuer t.access_audience
                (pos t.access_ttl)
              ≡ ok signer) =
            ground arith in
          let (signs, same_key) =
            signer_of-IsSigner t.access_key_id t.access_issuer t.access_audience key
              (pos t.access_ttl) signer (exact key h) made in
          (
            signs,
            inl (unset, h ∙ ap ok (sym same_key)),
            signer_of-ttl key t.access_key_id t.access_issuer t.access_audience t.access_ttl signer
                made,
          )
    ]
    | inr set ↦
        let made : (new_signer t.access_private_key_base64 t.access_key_id t.access_issuer
              t.access_audience (pos t.access_ttl)
            ≡ ok signer) =
          ground arith in
        let (signs, read) =
          new_signer-IsSigner t.access_key_id t.access_issuer t.access_audience
            t.access_private_key_base64 (pos t.access_ttl) signer made in
        (
          signs,
          inr (set, read),
          new_signer-ttl t.access_private_key_base64 t.access_key_id t.access_issuer
              t.access_audience t.access_ttl signer made,
        )
  ]

  absolute-IsAbsolute :
      (parsed : Option U) (url : U) → absolute libraries.urls parsed ≡ ok url → IsAbsolute url
  unfolding absolute
  absolute-IsAbsolute none url e = absurd (ground arith)
  absolute-IsAbsolute (some u) url e =
      let same_url : (url ≡ u) = ground arith in rw same_url (ground arith)

  new_log_mailer-IsAbsolute :
      (a b : Text) (mailer : LogMailer U)
      → new_log_mailer libraries.urls a b ≡ ok mailer
      → IsAbsolute mailer.verification_url × IsAbsolute mailer.password_reset_url
  unfolding new_log_mailer
  new_log_mailer-IsAbsolute a b mailer e =
      elim (Result-cases (absolute libraries.urls (libraries.urls.parse a))) [
        | inl (f, h) ↦ absurd (ground arith)
        | inr (u, h) ↦ elim (Result-cases (absolute libraries.urls (libraries.urls.parse b))) [
          | inl (f, h') ↦ absurd (ground arith)
          | inr (v, h') ↦
              let whole : (mailer ≡ record { verification_url = u; password_reset_url = v }) =
                ground arith in
              rw whole (absolute-IsAbsolute _ u h, absolute-IsAbsolute _ v h')
        ]
      ]

  -- What `Run` hands on to the server.
  pub record IsStarted (c : Config) (parts : Parts L U) : Type 0 where
    pub environment : same c.app.environment (codes "production") ≡ false
    pub pool : libraries.open_pool c.postgres ≡ ok tt
    pub signer : IsSigner parts.signer
    pub key : IsKeyOf c.tokens parts.signer.private_key
    pub public_key : parts.public_key ≡ public_key_info parts.signer
    pub tokens : (parts.signer.ttl ≡ c.tokens.access_ttl) × (parts.signer.ttl < parts.refresh_ttl)
    pub links :
        IsAbsolute parts.mailer.verification_url × IsAbsolute parts.mailer.password_reset_url
    pub timing :
        (parts.server.interval ≡ c.grpc.readiness_check_interval)
        × (parts.server.timeout ≡ c.grpc.readiness_check_timeout)
    pub serves :
        (checks : List Check)
        → serve (pos c.grpc.shutdown_timeout) checks parts.server ≡ ok (started checks parts.server)

  start-parts :
      (c : Config) (parts : Parts L U)
      → start libraries c ≡ ok parts
      → (logger : Logger L) × (mailer : LogMailer U) × (signer : Signer) × (same c.app.environment
            (codes "production")
          ≡ false)
        × (libraries.open_pool c.postgres ≡ ok tt)
        × (new_log_mailer libraries.urls c.email.verification_url c.email.password_reset_url
            ≡ ok mailer)
        × (signer_for libraries c.tokens ≡ ok signer)
        × (parts ≡ record {
          logger = logger;
          mailer = mailer;
          signer = signer;
          refresh_ttl = c.tokens.refresh_ttl;
          public_key = public_key_info signer;
          server = server_of c;
        })
  unfolding start
  start-parts c parts e =
      let (logger, logs, e1) =
        then_with-inverted "initialize logger"
          (new_logger libraries.zap libraries.to_lower (settings_of c)) _ e in
      elim (Bool-cases (same c.app.environment (codes "production"))) [
        | inl refused ↦ absurd (ground arith)
        | inr other ↦
            let (_, opened, e2) =
              then_with-inverted "initialize PostgreSQL" (libraries.open_pool c.postgres) _
                (rw other at e1) in
            let (mailer, mails, e3) =
              then_with-inverted "initialize identity mailer"
                (new_log_mailer libraries.urls c.email.verification_url c.email.password_reset_url)
                _ e2 in
            let (signer, signs, e4) =
              then_with-inverted "initialize access token signer" (signer_for libraries c.tokens) _
                e3 in
            (logger, mailer, signer, other, opened, mails, signs, ground arith)
      ]

  parts-IsStarted :
      (c : Config) (mailer : LogMailer U) (signer : Signer) (logger : Logger L)
      → ((key : Bytes) → libraries.generated_key ≡ ok key → length key ≡ 64)
      → c.tokens.access_ttl < c.tokens.refresh_ttl
      → (0 < c.grpc.shutdown_timeout)
        × (0 < c.grpc.readiness_check_interval)
        × (0 < c.grpc.readiness_check_timeout)
      → same c.app.environment (codes "production") ≡ false
      → libraries.open_pool c.postgres ≡ ok tt
      → new_log_mailer libraries.urls c.email.verification_url c.email.password_reset_url
        ≡ ok mailer
      → signer_for libraries c.tokens ≡ ok signer
      → IsStarted c (record {
        logger = logger;
        mailer = mailer;
        signer = signer;
        refresh_ttl = c.tokens.refresh_ttl;
        public_key = public_key_info signer;
        server = server_of c;
      })
  unfolding with_readiness_timing with_readiness_check
  parts-IsStarted c mailer signer logger exact outlives (patience, interval, timeout) other opened
        mails signs =
      let (can_sign, key, ttl) = signer_for-IsSigner c.tokens signer exact signs in
      record {
        environment = other;
        pool = opened;
        signer = can_sign;
        key = key;
        public_key = refl;
        tokens = (ttl, rw ttl outlives);
        links =
            new_log_mailer-IsAbsolute c.email.verification_url c.email.password_reset_url mailer
              mails;
        timing = (
          if_positive_lem c.grpc.readiness_check_interval _ interval,
          if_positive_lem c.grpc.readiness_check_timeout _ timeout,
        );
        serves = λ checks. serve_lem c.grpc.shutdown_timeout checks _ patience;
      }

  -- A service that starts on a configuration that was loaded is not in production as it is written,
  -- has a pool on its database, signs with the configured key, or with one of 64 bytes that was
  -- drawn when none is configured, hands out that key's public half, gives access tokens that expire
  -- before the refresh token, mails links with a scheme and a host, and has a server that checks its
  -- readiness at the configured interval and does not refuse to serve. A key that is drawn is relied
  -- on to have 64 bytes.
  pub start-IsStarted :
      (parse_duration : Text → Option ℤ) (env : Env) (c : Config) (parts : Parts L U)
      → ((key : Bytes) → libraries.generated_key ≡ ok key → length key ≡ 64)
      → load parse_duration env ≡ valid c
      → start libraries c ≡ ok parts
      → IsStarted c parts
  start-IsStarted parse_duration env c parts exact configured runs =
      let config = load-IsConfig parse_duration env c configured in
      let (logger, mailer, signer, other, opened, mails, signs, whole) = start-parts c parts runs in
      subst (IsStarted c) (sym whole) (
        parts-IsStarted c mailer signer logger exact config.tokens.ttls.1 config.durations other
          opened mails signs)
