-- ===== src/Util/Logger.antt =====
-- The logger (util/logger.go). logrus's new logger and the functions of package fmt on values are
-- parameters, as is the path of the source file that the runtime gives.
use kws_control.Common.{
  ℕ, Bool, true, false, Option, none, some, List, [], ◌∷◌, ◌++◌, if◌then◌else◌, leb, ◌&&◌, ◌-◌,
}
use kws_control.Common.Text.{GoString, codes, str_eq}
use kws_control.Pkg.Network.{digits}
use kws_control.Util.Search.{find_text, remove_first, has_suffix}
pub mod Calls
pub mod Flag
pub mod Place

abbrev pub repository_mark : GoString
repository_mark = codes "KWS_Control/"

abbrev from_after : GoString → Option (GoString × GoString) → GoString
from_after s (some (before, after)) = after
from_after s none = s

-- `file[strings.Index(file, "KWS_Control/")+len("KWS_Control/"):]`, if it contains the mark
unfoldable pub short_file : GoString → GoString
unfolding find_text
short_file file = from_after file (find_text repository_mark file)

-- `type CustomFormatter struct`; the base formatter is its timestamp format, if it is a text formatter.
pub record CustomFormatter : Type 0 where
  pub base_formatter : Option GoString
  pub project_root : GoString

-- The fields of a `logrus.Entry` that are read
pub record Entry : Type 0 where
  pub time : GoString → GoString
  pub level : GoString
  pub message : GoString
  pub caller : Option (GoString × ℕ)

abbrev pub default_format : GoString
default_format = codes "2006-01-02 15:04:05"

abbrev time_format : Option GoString → GoString
time_format none = default_format
time_format (some format) = if str_eq format [] then default_format else format

abbrev upper : ℕ → ℕ
upper c = if leb 97 c && leb c 122 then c - 32 else c

-- `strings.ToUpper` of the name of a level
abbrev to_upper : GoString → GoString
to_upper [] = []
to_upper (c ∷ s) = upper c ∷ to_upper s

-- The path of the file as it is shown
unfoldable pub shown_file : GoString → GoString → GoString
unfolding remove_first
shown_file root file =
    remove_first repository_mark
      (if str_eq root [] then file else remove_first root (remove_first (root ++ codes "/") file))

-- `" [file:line]"`
abbrev caller_text : GoString → Option (GoString × ℕ) → GoString
unfolding shown_file
caller_text root none = []
caller_text root (some (file, line)) =
    codes " [" ++ shown_file root file ++ codes ":" ++ digits line ++ codes "]"

-- `(f *CustomFormatter) Format`
unfoldable pub format_entry : CustomFormatter → Entry → GoString
unfolding shown_file
format_entry f entry =
    entry.time (time_format f.base_formatter)
    ++ codes " ["
    ++ to_upper entry.level
    ++ codes "] "
    ++ entry.message
    ++ caller_text f.project_root entry.caller
    ++ (b'\n' ∷ [])

-- A clean path as the names on it, the innermost first. Of a build with `-trimpath` it is not
-- absolute.
abbrev pub Names : Type 0
Names = List GoString

abbrev pub path_text : Bool → Names → GoString
path_text absolute [] = if absolute then codes "/" else codes "."
path_text absolute (name ∷ []) = if absolute then codes "/" ++ name else name
path_text absolute (name ∷ (parent ∷ rest)) =
    path_text absolute (parent ∷ rest) ++ codes "/" ++ name

-- The loop of `NewEnhancedLogger`: the first directory, from `dir` upwards, whose path ends in
-- "KWS_Control", or the empty string
unfoldable pub project_root : Bool → Names → GoString
unfolding has_suffix
project_root absolute [] =
    if has_suffix (path_text absolute []) (codes "KWS_Control") then path_text absolute [] else []
project_root absolute (name ∷ parent) =
    let above = project_root absolute parent in
    if has_suffix (path_text absolute (name ∷ parent)) (codes "KWS_Control")
    then path_text absolute (name ∷ parent)
    else above

-- `filepath.Dir` of the path of a file
abbrev pub directory : Names → Names
directory [] = []
directory (file ∷ dir) = dir

-- Where a logger writes
pub data Output : Type 0 where
  standard_output : Output
  both_outputs : (path : GoString) → Output

-- What is read and set of a `logrus.Logger`
pub record LogrusLogger : Type 0 where
  pub report_caller : Bool
  pub output : Option Output
  pub formatter : Option CustomFormatter

-- `formatter := &CustomFormatter{...}`
abbrev pub new_formatter : GoString → CustomFormatter
new_formatter root = record { base_formatter = some default_format; project_root = root }

-- `NewLogger`
unfoldable pub new_logger : LogrusLogger → Bool → Names → LogrusLogger
unfolding project_root
new_logger logrus absolute file = record {
  report_caller = false;
  output = logrus.output;
  formatter = some (new_formatter (project_root absolute (directory file)));
}

-- The message on a directory that could not be made
abbrev directory_message : Option GoString → List GoString
directory_message none = []
directory_message (some err) =
    (codes "Failed to create log directory: " ++ err ++ (b'\n' ∷ [])) ∷ []

abbrev log_path : GoString → GoString
log_path filename = codes "logs/" ++ filename

abbrev file_message : GoString → Option GoString → List GoString
file_message path none = []
file_message path (some err) =
    (codes "Failed to open log file " ++ path ++ codes ": " ++ err ++ (b'\n' ∷ [])) ∷ []

abbrev output_of : GoString → Option GoString → Output
output_of path none = both_outputs path
output_of path (some err) = standard_output

-- `createLoggerWithFile`, on the errors of `os.MkdirAll` and `os.OpenFile`: the logger and what is
-- printed
unfoldable pub create_logger_with_file :
    GoString → GoString → Option GoString → Option GoString → LogrusLogger × List GoString
create_logger_with_file filename root made opened = (
  record {
    report_caller = false;
    output = some (output_of (log_path filename) opened);
    formatter = some (new_formatter root);
  },
  directory_message made ++ file_message (log_path filename) opened,
)

-- `type Logger struct`
pub record Logger : Type 0 where
  pub system_logger : LogrusLogger
  pub info_logger : LogrusLogger
  pub warn_logger : LogrusLogger
  pub error_logger : LogrusLogger

-- The errors of the operating system, for one log file
abbrev pub FileErrors : Type 0
FileErrors = Option GoString × Option GoString

-- `NewEnhancedLogger` and `GetLogger`
unfoldable pub new_enhanced_logger :
    LogrusLogger → Bool → Names → FileErrors → FileErrors → FileErrors → Logger × List GoString
unfolding project_root create_logger_with_file new_logger
new_enhanced_logger logrus absolute file (info_made, info_opened) (warn_made, warn_opened)
      (error_made, error_opened) =
    let root = project_root absolute (directory file) in
    let (info, info_printed) =
      create_logger_with_file (codes "info.log") root info_made info_opened in
    let (warn, warn_printed) =
      create_logger_with_file (codes "warn.log") root warn_made warn_opened in
    let (error, error_printed) =
      create_logger_with_file (codes "error.log") root error_made error_opened in
    (
      record {
        system_logger = new_logger logrus absolute file;
        info_logger = info;
        warn_logger = warn;
        error_logger = error;
      },
      info_printed ++ warn_printed ++ error_printed,
    )
