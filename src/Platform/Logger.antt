-- ===== src/Platform/Logger.antt =====
-- internal/platform/logger/logger.go. zap is a parameter: its reading of a level, and whether it
-- builds a logger from a configuration.
use family_tree_identity_mic.Shared.{
  String, Bool, true, false, List, [], ◌∷◌, Text, codes, same, is_empty, trim_space, if◌then◌else◌,
}
use family_tree_identity_mic.Domain.Errors.{foreign, wrap, Result, ok, err}

pub record LoggerSettings : Type 0 where
  pub service_name : Text
  pub environment : Text
  pub level : Text

-- `zap.NewDevelopmentConfig` and `zap.NewProductionConfig`.
pub data Preset : Type 0 where
  development production : Preset

pub data Encoder : Type 0 where
  iso_time lowercase_level string_duration short_caller : Encoder

-- The fields of `zap.Config` that this file sets; `preset` gives the others.
pub record ZapConfig (L : Type 0) : Type 0 where
  pub preset : Preset
  -- Without the sampling of the preset.
  pub unsampled : Bool
  pub level : L
  pub output_paths : List String
  pub error_output_paths : List String
  pub keys : List (String × String)
  pub encoders : List Encoder

-- `Level.UnmarshalText` and `Config.Build`.
pub record Zap (L : Type 0) : Type 0 where
  pub parse_level : Text → Result L
  pub build : ZapConfig L → Result (Unit {0})

-- A logger, with the two fields that it adds to every line.
pub record Logger (L : Type 0) : Type 0 where
  pub config : ZapConfig L
  pub service : Text
  pub environment : Text

module _ {L : Type 0} where
  -- Lines 102 to 131.
  abbrev pub configured : Preset → Bool → L → Result (ZapConfig L)
  configured preset unsampled level = ok (record {
    preset = preset;
    unsampled = unsampled;
    level = level;
    output_paths = "stdout" ∷ [];
    error_output_paths = "stderr" ∷ [];
    keys =
        ("TimeKey", "timestamp")
        ∷ ("LevelKey", "level")
        ∷ ("NameKey", "logger")
        ∷ ("CallerKey", "caller")
        ∷ ("MessageKey", "message")
        ∷ ("StacktraceKey", "stacktrace")
        ∷ [];
    encoders =
        Encoder.iso_time ∷ Encoder.lowercase_level ∷ Encoder.string_duration ∷ Encoder.short_caller
        ∷ [];
  })

  unfoldable pub build_config : Text → L → Result (ZapConfig L)
  build_config environment level =
      if same environment (codes "development")
      then configured Preset.development false level
      else if same environment (codes "test")
      then configured Preset.production true level
      else if same environment (codes "production")
      then configured Preset.production false level
      else err (foreign "unsupported environment")

  module _ (zap : Zap L) (to_lower : Text → Text) where
    unfoldable pub read_level : Result L → Result L
    read_level (ok level) = ok level
    read_level (err e) = err (wrap "parse logger level" e)

    abbrev pub parse_level : Text → Result L
    parse_level value = read_level (zap.parse_level (trim_space value))

    -- Lines 48 to 59.
    unfoldable pub built : LoggerSettings → ZapConfig L → Result (Unit {0}) → Result (Logger L)
    built settings config (err e) = err (wrap "build zap logger" e)
    built settings config (ok x) = ok (record {
      config = config;
      service = trim_space settings.service_name;
      environment = to_lower (trim_space settings.environment);
    })

    -- Lines 35 to 59.
    unfoldable pub levelled : LoggerSettings → Result L → Result (Logger L)
    levelled settings (err e) = err e
    levelled settings (ok level) =
        elim (build_config (to_lower (trim_space settings.environment)) level) [
          | err e ↦ err e
          | ok config ↦ built settings config (zap.build config)
        ]

    -- `New`.
    unfoldable pub new_logger : LoggerSettings → Result (Logger L)
    new_logger settings =
        if is_empty (trim_space settings.service_name)
        then err (foreign "logger service name must not be empty")
        else levelled settings (parse_level settings.level)
