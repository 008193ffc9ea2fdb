-- ===== src/Logging.antt =====
-- server/logging/nats.go: the logger of the server, over the one of nats-server, whose calls are
-- collected here.
use nats_replicator.Prelude.{
  String, ◌≡◌, sym, ◌∙◌, ap, Bool, true, false, not, ◌||◌, ◌&&◌, List, [], ◌∷◌, ◌++◌, if◌then◌else◌,
  arith,
}
use mathlib.Core.List.{append-nil, append_assoc}
use nats_replicator.Conf.{LoggingConfig}

-- The methods of the interface Logger that write.
pub data Level : Type 0 where
  debug_level error_level fatal_level notice_level trace_level warn_level : Level

-- A call of the logger of nats-server: the method and the text.
pub record Line : Type 0 where
  pub level : Level
  pub text : String

-- NATSLogger, with the flags that it gave to the logger below.
pub record NatsLogger : Type 0 where
  pub lines : List Line
  pub trace_enabled : Bool
  pub hide : Bool

-- NewNATSLogger
unfoldable pub new_nats_logger : LoggingConfig → NatsLogger
new_nats_logger conf = record { lines = []; trace_enabled = conf.trace; hide = conf.hide }

-- The call of the method of the logger below.
abbrev write : NatsLogger → Level → String → NatsLogger
write logger level text = record logger {
  lines = logger.lines ++ record { level = level; text = text } ∷ [];
}

unfoldable pub debugf : NatsLogger → String → NatsLogger
debugf logger text = if logger.hide then logger else write logger debug_level text

unfoldable pub errorf : NatsLogger → String → NatsLogger
errorf logger text = if logger.hide then logger else write logger error_level text

-- It ends the process, unless the logger is hidden: here the line stands for that.
unfoldable pub fatalf : NatsLogger → String → NatsLogger
fatalf logger text = if logger.hide then logger else write logger fatal_level text

unfoldable pub noticef : NatsLogger → String → NatsLogger
noticef logger text = if logger.hide then logger else write logger notice_level text

unfoldable pub tracef : NatsLogger → String → NatsLogger
tracef logger text =
    if logger.hide || not logger.trace_enabled then logger else write logger trace_level text

unfoldable pub warnf : NatsLogger → String → NatsLogger
warnf logger text = if logger.hide then logger else write logger warn_level text

-- The method of that level.
abbrev pub log_at : Level → NatsLogger → String → NatsLogger
log_at debug_level = debugf
log_at error_level = errorf
log_at fatal_level = fatalf
log_at notice_level = noticef
log_at trace_level = tracef
log_at warn_level = warnf

abbrev pub log_all : NatsLogger → List Line → NatsLogger
log_all logger [] = logger
log_all logger (line ∷ more) = log_all (log_at line.level logger line.text) more

-- A line is shown unless the logger is hidden, or traces are off and it is one.
abbrev pub shown_at : Level → LoggingConfig → Bool
shown_at trace_level conf = not conf.hide && conf.trace
shown_at _ conf = not conf.hide

abbrev pub shown : LoggingConfig → List Line → List Line
shown conf [] = []
shown conf (line ∷ more) =
    if shown_at line.level conf then line ∷ shown conf more else shown conf more

abbrev with_lines : LoggingConfig → List Line → NatsLogger
with_lines conf lines = record { lines = lines; trace_enabled = conf.trace; hide = conf.hide }

log_at-shown :
    (level : Level) (conf : LoggingConfig) (text : String) (lines : List Line)
    → log_at level (with_lines conf lines) text
      ≡ with_lines conf (
          lines ++ (if shown_at level conf then record { level = level; text = text } ∷ [] else []))
unfolding debugf errorf fatalf noticef tracef warnf
log_at-shown debug_level conf text lines = ground (arith, append-nil lines)
log_at-shown error_level conf text lines = ground (arith, append-nil lines)
log_at-shown fatal_level conf text lines = ground (arith, append-nil lines)
log_at-shown notice_level conf text lines = ground (arith, append-nil lines)
log_at-shown trace_level conf text lines = ground (arith, append-nil lines)
log_at-shown warn_level conf text lines = ground (arith, append-nil lines)

log_all-shown :
    (conf : LoggingConfig) (calls lines : List Line)
    → log_all (with_lines conf lines) calls ≡ with_lines conf (lines ++ shown conf calls)
log_all-shown conf [] lines = ap (with_lines conf) (sym (append-nil lines))
log_all-shown conf (line ∷ more) lines =
    ap (λ l. log_all l more) (log_at-shown line.level conf line.text lines)
    ∙ (log_all-shown conf more _
        ∙ ap (with_lines conf) (regroup (shown_at line.level conf) line lines (shown conf more)))
  where
    regroup :
        (b : Bool) (line : Line) (lines rest : List Line)
        → (lines ++ (if b then line ∷ [] else [])) ++ rest
          ≡ lines ++ (if b then line ∷ rest else rest)
    regroup true line lines rest = append_assoc lines (line ∷ []) rest
    regroup false line lines rest = ap (λ l. l ++ rest) (append-nil lines)

-- Of the calls of a new logger exactly those reach the logger below that the configuration shows,
-- in order: none when it hides, and a trace only when traces are on.
pub new_nats_logger-shown :
    (conf : LoggingConfig) (calls : List Line)
    → (log_all (new_nats_logger conf) calls).lines ≡ shown conf calls
unfolding new_nats_logger
new_nats_logger-shown conf calls = ap (λ (l : NatsLogger). l.lines) (log_all-shown conf calls [])
