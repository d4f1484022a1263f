-- ===== src/Logger/Lifetime.antt =====
-- src/manager/logger.cpp and include/logger.h: the two single objects, what the manager of loggers owns, and the
-- destructors. A logger is its address; that of the root logger is owned twice, by the map and by
-- `m_root_logger`.
use io_scheduler.Logger.{
  Appender, Logger, add_logger, clean_appender, clean_logger, delete_logger, get_logger,
  new_logger_manager,
}
use io_scheduler.Logger.FileLog.{FileAppender}
use io_scheduler.Logger.Macros.{Clock, level_unknow}
use io_scheduler.Logger.Wrap.{Wrap, new_wrap}
use io_scheduler.Prelude.{
  List, Option, [], arith, if◌then◌else◌, none, refl, some, ℕ, ◌==◌, ◌∙◌, ◌∷◌, ◌≡◌,
}

-- `logevent_wrap::GetLogeventWrap`.
unfoldable pub get_logevent_wrap : Clock → Option Wrap → Wrap × Option Wrap
get_logevent_wrap c none = let w = new_wrap c.month c.month_again c.day c.day_again in (w, some w)
get_logevent_wrap c (some w) = (w, some w)

pub record LoggerManager : Type 0 where
  pub loggers : ℕ → Option ℕ
  pub root_logger : Option ℕ

-- `logger_manager::GetLoggerManager`, where the root logger is made at `root`.
unfoldable pub get_logger_manager :
    ℕ → ℕ → Option LoggerManager → LoggerManager × Option LoggerManager
get_logger_manager system root none =
    let m : LoggerManager = record {
      loggers = new_logger_manager system root;
      root_logger = some root;
    } in
    (m, some m)
get_logger_manager system root (some m) = (m, some m)

-- `get_root_logger`.
unfoldable pub get_root_logger : LoggerManager → Option ℕ
get_root_logger m = m.root_logger

-- `~logger_manager`.
unfoldable pub destroy_logger_manager : LoggerManager → LoggerManager
destroy_logger_manager m = record { loggers = clean_logger m.loggers; root_logger = none }

-- `~console_appender` and `~file_appender`.
unfoldable pub destroy_console_appender : Appender → Appender
destroy_console_appender a = record a { format = none; level = level_unknow }

unfoldable pub destroy_file_appender : FileAppender → FileAppender
unfolding destroy_console_appender
destroy_file_appender a = record { base = destroy_console_appender a.base; stream = none }

-- `~system_logger`, and `~file_logger` with its `m_filenum`.
unfoldable pub destroy_system_logger : Logger → Logger
destroy_system_logger l = clean_appender l

unfoldable pub destroy_file_logger : Logger × ℕ → Logger × ℕ
destroy_file_logger (l, n) = (clean_appender l, 0)

-- What the program does with the manager.
pub data LoggerOp : Type 0 where
  adding : (name logger : ℕ) → LoggerOp
  deleting : (name : ℕ) → LoggerOp
  cleaning : LoggerOp

unfoldable pub logger_step : LoggerOp → LoggerManager → LoggerManager
logger_step (adding name l) m = record m { loggers = add_logger name l m.loggers }
logger_step (deleting name) m = record m { loggers = delete_logger name m.loggers }
logger_step cleaning m = record m { loggers = clean_logger m.loggers }

unfoldable pub logger_steps : List LoggerOp → LoggerManager → LoggerManager
logger_steps [] m = m
logger_steps (o ∷ os) m = logger_steps os (logger_step o m)

logger_step-root :
    (o : LoggerOp) (m : LoggerManager) → (logger_step o m).root_logger ≡ m.root_logger
unfolding logger_step
logger_step-root (adding name l) m = refl
logger_step-root (deleting name) m = refl
logger_step-root cleaning m = refl

logger_steps-root :
    (ops : List LoggerOp) (m : LoggerManager) → (logger_steps ops m).root_logger ≡ m.root_logger
unfolding logger_steps
logger_steps-root [] m = refl
logger_steps-root (o ∷ ops) m = logger_steps-root ops (logger_step o m) ∙ logger_step-root o m

-- Whatever was done with the manager since it was made, its root logger is the one made then, also when
-- the map has no logger of that name any more; so the macro `root_logger` is never null.
logger_steps-get_root_logger :
    (system root : ℕ) (ops : List LoggerOp)
    → get_root_logger (logger_steps ops (get_logger_manager system root none).0) ≡ some root
unfolding get_root_logger get_logger_manager
logger_steps-get_root_logger system root ops =
    logger_steps-root ops (get_logger_manager system root none).0

-- A logger that is deleted is not found, and any other is as before.
delete_then_get :
    (name other : ℕ) (m : LoggerManager)
    → get_logger other (logger_step (deleting name) m).loggers
      ≡ (if other == name then none else get_logger other m.loggers)
unfolding logger_step get_logger delete_logger
delete_then_get name other m = ground arith
