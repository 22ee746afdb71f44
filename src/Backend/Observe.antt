-- ===== src/Backend/Observe.antt =====
-- The logger and the metrics: `LogLevel`, `write_log`, `log_info`, `observe_request`,
-- `flush_metrics`, `configure_logger` and `configure_metrics`.
use hephaestus.Base.{
  ℕ, ◌+◌, Bool, true, false, Option, none, some, if◌then◌else◌, ◌&&◌, ◌||◌, leb, saturating_add,
  max_u64, [], ◌∷◌, map,
}
use hephaestus.Base.Text.{Bytes, codes, bytes_eq, starts_with}
use hephaestus.Config.{LoggerConfig, MetricsConfig}
use hephaestus.Backend.{
  invalid_config, LogLevel, error, warn, info, debug, trace, off, MetricsState, wrote_metrics,
  wrote_log, Host, Action, Done, ◌>>=◌, ◌>>◌, done, require, from_some, modify, emit,
}
use hephaestus.Backend.Counters.{record_request}

unfoldable pub to_ascii_lowercase : ℕ → ℕ
to_ascii_lowercase c = if leb b'A' c && leb c b'Z' then c + 32 else c

unfoldable pub parse_level : Bytes → Option LogLevel
unfolding to_ascii_lowercase
parse_level s =
    let name = map to_ascii_lowercase s in
    if bytes_eq name (codes "error")
    then some error
    else if bytes_eq name (codes "warn") || bytes_eq name (codes "warning")
    then some warn
    else if bytes_eq name (codes "info")
    then some info
    else if bytes_eq name (codes "debug")
    then some debug
    else if bytes_eq name (codes "trace")
    then some trace
    else if bytes_eq name (codes "off")
    then some off
    else none

pub level_name : LogLevel → Bytes
level_name error = codes "ERROR"
level_name warn = codes "WARN"
level_name info = codes "INFO"
level_name debug = codes "DEBUG"
level_name trace = codes "TRACE"
level_name off = codes "OFF"

-- The derived order of `LogLevel`.
unfoldable pub rank : LogLevel → ℕ
rank error = 0
rank warn = 1
rank info = 2
rank debug = 3
rank trace = 4
rank off = 5

unfoldable pub enabled : LogLevel → LogLevel → Bool
unfolding rank
enabled off level = false
enabled self level = leb (rank level) (rank self)

module_accepts : Option Bytes → Bytes → Bool
module_accepts none origin = true
module_accepts (some m) origin = starts_with m origin

-- The record's text is not kept; a file that does not open takes no record.
unfoldable pub write_log : Host → LogLevel → Bytes → Action Done
unfolding module_accepts
write_log h level origin w =
    if enabled w.backend.logger.level level && module_accepts w.backend.logger.module_name origin
    then elim w.backend.logger.path [
      | none ↦ done w
      | some path ↦ if h.opens path then emit (wrote_log path level) w else done w
    ]
    else done w

unfoldable pub log_info : Host → Bytes → Action Done
unfolding write_log
log_info h origin = write_log h info origin

unfoldable pub flush_metrics : Action Done
flush_metrics w =
    if w.backend.metrics.file
    then (let m = w.backend.metrics in
        let m' = record m { flush_count = saturating_add max_u64 m.flush_count 1 } in
        (do modify (λ b. record b { metrics = m' }); emit (wrote_metrics m')) w)
    else done w

unfoldable pub count_request : Bytes → Bytes → ℕ → MetricsState → MetricsState
count_request method path status m = record m {
  api_requests = saturating_add max_u64 m.api_requests 1;
  api_request_fails =
      if leb 400 status then saturating_add max_u64 m.api_request_fails 1 else m.api_request_fails;
  counters = record_request method path m.counters;
}

unfoldable pub observe_request : Host → Bytes → Bytes → ℕ → Action Done
observe_request h method path status = do
  modify (λ b. record b { metrics = count_request method path status b.metrics })
  write_log h debug (codes "api_server::request")
  flush_metrics

abbrev set_if : {A : Type 0} → Option A → A → A
set_if none old = old
set_if (some new) old = new

set_log_path : Host → Option Bytes → Action Done
set_log_path h none = done
set_log_path h (some path) = do
  require (h.opens path) invalid_config
  modify (λ b. let l = b.logger in record b { logger = record l { path = some path } })

set_level : Option Bytes → Action Done
set_level none = done
set_level (some name) = do
  level ← from_some (parse_level name) invalid_config
  modify (λ b. let l = b.logger in record b { logger = record l { level = level } })

set_module : Option Bytes → Option Bytes → Option Bytes
set_module none old = old
set_module (some []) old = none
set_module (some (c ∷ s)) old = some (c ∷ s)

-- Fields that are left out keep their values. The path is stored before the level is parsed.
unfoldable pub configure_logger : Host → LoggerConfig → Action Done
unfolding set_log_path set_level set_module
configure_logger h cfg = do
  set_log_path h cfg.log_path
  set_level cfg.level
  modify (λ b.
      let l = b.logger in
      record b {
        logger = record l {
          show_level = set_if cfg.show_level l.show_level;
          show_log_origin = set_if cfg.show_log_origin l.show_log_origin;
          module_name = set_module cfg.module_name l.module_name;
        };
      })
  log_info h (codes "api_server::request::logger")

unfoldable pub configure_metrics : Host → MetricsConfig → Action Done
unfolding flush_metrics
configure_metrics h cfg = do
  require (h.opens cfg.metrics_path) invalid_config
  modify (λ b. let m = b.metrics in record b { metrics = record m { file = true } })
  flush_metrics
