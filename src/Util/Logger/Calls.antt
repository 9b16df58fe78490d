-- ===== src/Util/Logger/Calls.antt =====
-- The calls of a logger (util/logger.go): `parseLogArgs`, `Info`, `Warn`, `Error`, `Println` and the
-- three that name the place of the call. `fmt.Sprintf` and `fmt.Sprint` on values are parameters.
use kws_control.Common.{
  ℕ, Bool, true, false, Option, none, some, List, [], ◌∷◌, ◌++◌, if◌then◌else◌, map,
}
use kws_control.Common.Text.{GoString, codes}
use kws_control.Pkg.Network.{digits}
use kws_control.Util.Search.{find_text}
use kws_control.Util.Logger.{short_file}

-- An argument of type `interface{}`: a bool, a string or a value of another type
pub data Argument {ℓ} (V : Type ℓ) : Type ℓ where
  boolean : (b : Bool) → Argument V
  text : (s : GoString) → Argument V
  value : (v : V) → Argument V

-- The logger's functions by the name of its field
pub data Target : Type 0 where
  system_logger : Target
  info_logger : Target
  warn_logger : Target
  error_logger : Target

pub data Level : Type 0 where
  info : Level
  warn : Level
  error : Level

-- A message that a logger of logrus is given
pub record Logged : Type 0 where
  pub target : Target
  pub level : Level
  pub message : GoString

-- `strings.Join(parts, " ")`
abbrev pub join : List GoString → GoString
join [] = []
join (part ∷ []) = part
join (part ∷ (next ∷ parts)) = part ++ codes " " ++ join (next ∷ parts)

-- `strings.Contains(format, "%")`
abbrev pub has_verb : GoString → Bool
unfolding find_text
has_verb format = elim (find_text (codes "%") format) [ none ↦ false | some place ↦ true ]

-- `fmt.Sprintf("[%s:%d] %s", file, line, format)` of the place that the runtime gives
abbrev pub with_place : Option (GoString × ℕ) → GoString → GoString
unfolding short_file
with_place none format = format
with_place (some (file, line)) format =
    codes "[" ++ short_file file ++ codes ":" ++ digits line ++ codes "] " ++ format

module _ {ℓ} {V : Type ℓ} where
  abbrev pub filtered : Argument V → Bool × List (Argument V) → Bool × List (Argument V)
  filtered arg (save, rest) = (save, arg ∷ rest)

  -- The loop over `args`: the flag and `filteredArgs`
  unfoldable pub filter_args : Bool → List (Argument V) → Bool × List (Argument V)
  filter_args save [] = (save, [])
  filter_args save (boolean v ∷ args) = filter_args v args
  filter_args save (text s ∷ args) = filtered (text s) (filter_args save args)
  filter_args save (value v ∷ args) = filtered (value v) (filter_args save args)

module _ {ℓ} {V : Type ℓ} (sprintf : GoString → List (Argument V) → GoString)
    (sprint : List (Argument V) → GoString) (show : V → GoString) where
  abbrev bool_text : Bool → GoString
  bool_text true = codes "true"
  bool_text false = codes "false"

  -- `fmt.Sprintf("%v", arg)`
  abbrev arg_text : Argument V → GoString
  arg_text (boolean b) = bool_text b
  arg_text (text s) = s
  arg_text (value v) = show v

  abbrev joined_args : List (Argument V) → GoString
  joined_args args = join (map arg_text args)

  -- The message of `filteredArgs`
  unfoldable pub message_of : List (Argument V) → GoString
  unfolding find_text
  message_of (text format ∷ (arg ∷ args)) =
      if has_verb format
      then sprintf format (arg ∷ args)
      else joined_args (text format ∷ (arg ∷ args))
  message_of args = joined_args args

  -- `parseLogArgs`
  unfoldable pub parse_log_args : List (Argument V) → GoString × Bool
  unfolding filter_args message_of
  parse_log_args args =
      let (save, filtered_args) = filter_args false args in (message_of filtered_args, save)

  abbrev given : Target → Level → GoString × Bool → Logged
  given target level (message, save) = record {
    target = if save then target else system_logger;
    level = level;
    message = message;
  }

  -- `(l *Logger) Info`
  unfoldable pub log_info : List (Argument V) → Logged
  unfolding parse_log_args
  log_info args = given info_logger info (parse_log_args args)

  -- `(l *Logger) Warn`
  unfoldable pub log_warn : List (Argument V) → Logged
  unfolding parse_log_args
  log_warn args = given warn_logger warn (parse_log_args args)

  -- `(l *Logger) Error`
  unfoldable pub log_error : List (Argument V) → Logged
  unfolding parse_log_args
  log_error args = given error_logger error (parse_log_args args)

  -- `DebugInfo`, `DebugWarn` and `DebugError`, by their level, at the place of the call
  unfoldable pub debug : Level → Option (GoString × ℕ) → GoString → List (Argument V) → Logged
  unfolding short_file
  debug level place format args = record {
    target = system_logger;
    level = level;
    message = sprintf (with_place place format) args;
  }

  -- `(l *Logger) Println`, at the place of the call
  unfoldable pub println : Option (GoString × ℕ) → List (Argument V) → Logged
  unfolding short_file
  println place args = record {
    target = system_logger;
    level = info;
    message = with_place place (sprint args);
  }
