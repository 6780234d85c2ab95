-- ===== src/Tests/Operations.antt =====
-- The configuration, the server and the migrations on small inputs.
use family_tree_identity_mic.Shared.{
  pos, ◌≤◌, ◌⊎◌, length, arith, is_space, ℤ, ◌≡◌, refl, true, false, Option, some, none, [], ◌∷◌,
  Text, codes, trim_space, trim_left, trim_right, is_empty, same,
}
use family_tree_identity_mic.Domain.Errors.{foreign, ok, err}
use family_tree_identity_mic.Config.{
  Config, valid, Env, load, new_config, load_token_config, load_postgres_config, postgres_url,
  duration_from_env, bool_from_env, int32_from_env, string_from_env, default_postgres_url, seconds,
}
use family_tree_identity_mic.Config.Laws.{IsConfig, load-IsConfig, load-trim_space}
use family_tree_identity_mic.App.{Libraries, Parts, server_of, signer_for, start}
use family_tree_identity_mic.App.Started.{IsStarted, start-IsStarted}
use family_tree_identity_mic.Mailer.{new_log_mailer, absolute}
use family_tree_identity_mic.Security.Base64.{Bytes}
use family_tree_identity_mic.Security.Password.{zeros}
use family_tree_identity_mic.Security.Password.Verify.{zeros-AreBytes}
use family_tree_identity_mic.Security.AccessToken.{
  Signer, drop, signer_of, new_ephemeral_signer, public_key_info,
}
use family_tree_identity_mic.Platform.Logger.{
  Preset, Encoder, new_logger, levelled, read_level, build_config, built,
}
use family_tree_identity_mic.Platform.GrpcServer.{
  Check, new_server, State, stopping, returned, checked, ended, Steps, here, then, Step, started,
  first_failure, serving, serve_result, serve, GrpcError, marking, forcing, calling, blocked,
  draining, not_serving,
}
use family_tree_identity_mic.Platform.GrpcServer.Readiness.{Alternates, rounds, rounds-Alternates}
use family_tree_identity_mic.Platform.GrpcServer.Shutdown.{publish_stale}
use family_tree_identity_mic.Platform.GrpcServer.Stopping.{
  own_steps, HasReturned, CanStep, serve_stops,
}

-- Nothing is set.
abbrev unset : Env
unset key = []

abbrev no_durations : Text → Option ℤ
no_durations s = none

load-trim_space_example :
    load no_durations (λ key. trim_space (codes " x ")) ≡ load no_durations (λ key. codes " x ")
load-trim_space_example = load-trim_space no_durations (λ key. codes " x ")

abbrev passing : Check
passing = record { name = "postgres"; result = ok tt }

abbrev failing : Check
failing = record { name = "postgres"; result = err (foreign "down") }

rounds-Alternates_example :
    let server = rounds ((passing ∷ []) ∷ (passing ∷ []) ∷ (failing ∷ []) ∷ []) new_server in
    Alternates server.readiness server.log
rounds-Alternates_example =
    rounds-Alternates ((passing ∷ []) ∷ (passing ∷ []) ∷ (failing ∷ []) ∷ []) new_server refl

abbrev pending_round : State
pending_round = record (started (passing ∷ []) new_server) {
  monitor = checked (passing ∷ []);
  cancelled = true;
}

passes : first_failure (passing ∷ []) ≡ none
unfolding first_failure
passes = refl

publish_stale_example :
    (t : State) × Steps pending_round t × (t.main ≡ stopping) × (t.server.health ≡ serving)
publish_stale_example = publish_stale pending_round (passing ∷ []) refl refl refl passes

abbrev failure : GrpcError
failure = GrpcError.wrapped "accept" (GrpcError.other (foreign "closed"))

abbrev broken : State
broken = record (started (passing ∷ []) new_server) { grpc = ended (some failure) }

abbrev told : State
told = record broken { main = returned (serve_result (some failure)) }

served : serve (pos 1) (passing ∷ []) new_server ≡ ok (started (passing ∷ []) new_server)
unfolding serve
served = refl

-- The context is cancelled, `gracefulStop` has called `GracefulStop`, and its timer has fired.
abbrev cancelled_at : State
cancelled_at = record (started (passing ∷ []) new_server) { cancelled = true }

abbrev marking_at : State
marking_at = record cancelled_at { main = marking }

abbrev stopping_at : State
stopping_at = record marking_at {
  main = stopping;
  stopper = calling;
  server = record marking_at.server { health = not_serving };
}

abbrev draining_at : State
draining_at = record stopping_at { stopper = blocked; grpc = draining }

abbrev forcing_at : State
forcing_at = record draining_at { main = forcing }

abbrev some_steps : Steps cancelled_at forcing_at
some_steps =
    then {t = draining_at}
      (then {t = stopping_at}
        (then {t = marking_at} (then here (Step.see_cancel refl refl refl)) (Step.mark refl refl))
        (Step.call_graceful_stop refl refl))
      (Step.expire refl refl)

serve_stops_example : (own_steps some_steps ≤ 7) × (HasReturned forcing_at ⊎ CanStep forcing_at)
serve_stops_example =
    serve_stops (pos 1) (passing ∷ []) new_server cancelled_at forcing_at
      (started (passing ∷ []) new_server, served, then here (Step.cancel refl)) refl some_steps

abbrev by_default : Config
by_default =
    new_config (codes "development") (codes ":50051") (seconds 10) false
      (record {
        url = default_postgres_url;
        max_connections = 10;
        min_connections = 1;
        max_conn_lifetime = seconds 1800;
        max_conn_idle_time = seconds 300;
        health_check_period = seconds 15;
        connect_timeout = seconds 5;
      })
      (codes "INFO")

configured : load no_durations unset ≡ valid by_default
unfolding load new_config load_token_config load_postgres_config postgres_url duration_from_env
    bool_from_env int32_from_env string_from_env trim_space trim_left trim_right is_empty same
configured = refl

load-IsConfig_example : IsConfig no_durations unset by_default
load-IsConfig_example = load-IsConfig no_durations unset by_default configured

-- Libraries that accept everything; a link is a text whose parts are all of it.
abbrev libraries : Libraries (Unit {0}) Text
libraries = record {
  zap = record { parse_level = λ value. ok tt; build = λ config. ok tt };
  to_lower = λ s. s;
  urls = record {
    parse = λ s. some s;
    scheme = λ url. url;
    host = λ url. url;
    with_query = λ key value url. url;
    print = λ url. url;
  };
  open_pool = λ postgres. ok tt;
  generated_key = ok (zeros 64);
}

generated_exact : (key : Bytes) → ok (zeros 64) ≡ ok key → length key ≡ 64
generated_exact key h =
    let same_key : (key ≡ zeros 64) = ground arith in rw same_key ((zeros-AreBytes 64).1)

abbrev key_name : Text
key_name = codes "identity-development-1"

abbrev drawn : Signer
drawn = record {
  private_key = zeros 64;
  public_key = drop 32 (zeros 64);
  key_id = key_name;
  issuer = codes "family-tree-identity";
  audience = codes "family-tree-api";
  ttl = seconds 900;
}

abbrev ready : Parts (Unit {0}) Text
ready = record {
  logger = record {
    config = record {
      preset = Preset.development;
      unsampled = false;
      level = tt;
      output_paths = "stdout" ∷ [];
      error_output_paths = "stderr" ∷ [];
      keys =
          ("TimeKey", "timestamp")
          ∷ ("LevelKey", "level")
          ∷ ("NameKey", "logger")
          ∷ ("CallerKey", "caller")
          ∷ ("MessageKey", "message")
          ∷ ("StacktraceKey", "stacktrace")
          ∷ [];
      encoders =
          Encoder.iso_time ∷ Encoder.lowercase_level ∷ Encoder.string_duration
          ∷ Encoder.short_caller ∷ [];
    };
    service = codes "identity-service";
    environment = codes "development";
  };
  mailer = record {
    verification_url = by_default.email.verification_url;
    password_reset_url = by_default.email.password_reset_url;
  };
  signer = drawn;
  refresh_ttl = seconds 2_592_000;
  public_key = public_key_info drawn;
  server = server_of by_default;
}

started_by_default : start libraries by_default ≡ ok ready
unfolding start new_config new_logger levelled read_level build_config built signer_for
    new_ephemeral_signer signer_of new_log_mailer absolute same is_empty trim_space trim_left
    trim_right is_space
started_by_default = refl

start-IsStarted_example : IsStarted libraries by_default ready
start-IsStarted_example =
    start-IsStarted libraries no_durations unset by_default ready generated_exact configured
      started_by_default
