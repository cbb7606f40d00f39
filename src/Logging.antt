-- ===== src/Logging.antt =====
-- media/js/cometd.js: the log level and what is written to the browser's console.
use vurs.Prelude.{String, Bool, not, if◌then◌else◌}
use vurs.Value.{Value, Object, str, get, truthy, is_str}

-- The browser: whether it has a console whose property of the given name is a function, and what a call
-- of that function does.
pub record Console (W A : Type 0) : Type 0 where
  pub has_function : String → Bool
  pub write : String → A → W → W

-- `configuration.logLevel || 'info'`
unfoldable pub configured_level : Object → Value
configured_level c = let level = get "logLevel" c in if truthy level then level else str "info"

-- `setLogLevel`
unfoldable pub set_log_level : Value → Value → Value
set_log_level level old = level

module _ {W A : Type 0} (console : Console W A) where
  -- `_log`
  unfoldable pub log : String → A → W → W
  log level args w = if console.has_function level then console.write level args w else w

  -- `_warn`, `_info` and `_debug`, with the level in force.
  unfoldable pub warn : A → W → W
  unfolding log
  warn args w = log "warn" args w

  unfoldable pub info : Value → A → W → W
  unfolding log
  info level args w = if not (is_str "warn" level) then log "info" args w else w

  unfoldable pub debug : Value → A → W → W
  unfolding log
  debug level args w = if is_str "debug" level then log "debug" args w else w
