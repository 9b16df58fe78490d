-- ===== src/Tests/Logger.antt =====
-- Calls of the logger.
use kws_control.Common.{◌≡◌, refl, Bool, true, false, List, [], ◌∷◌}
use kws_control.Common.Text.{codes, str_eq}
use kws_control.Util.Search.{strip_prefix, find_text, has_suffix, remove_first}
use kws_control.Util.Logger.{project_root, directory, shown_file, Names}
use kws_control.Util.Logger.Calls.{
  Argument, boolean, text, value, filter_args, message_of, parse_log_args,
}

abbrev source : Names
source = codes "logger.go" ∷ (codes "util" ∷ (codes "my_KWS_Control" ∷ (codes "root" ∷ [])))

project_root_run :
    (project_root true (directory source) ≡ codes "/root/my_KWS_Control")
    × (project_root false (directory source) ≡ codes "root/my_KWS_Control")
unfolding project_root has_suffix str_eq
project_root_run = (refl, refl)

abbrev arguments : List (Argument Bool)
arguments = text (codes "a") ∷ (boolean true ∷ (value false ∷ []))

parse_log_args_run :
    parse_log_args (λ format args. format) (λ args. []) (λ v. codes "b") arguments
    ≡ (codes "a b", true)
unfolding parse_log_args message_of filter_args find_text strip_prefix
parse_log_args_run = refl

shown_file_run :
    shown_file (codes "/r/KWS_Control") (codes "/r/KWS_Control/api/KWS_Control/x.go")
    ≡ codes "api/x.go"
unfolding shown_file remove_first find_text strip_prefix str_eq
shown_file_run = refl
