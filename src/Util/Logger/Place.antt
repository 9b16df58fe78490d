-- ===== src/Util/Logger/Place.antt =====
-- The directories and the places of calls that the logger shows (util/logger.go).
use kws_control.Common.{
  Bool, true, false, [], ◌∷◌, ◌++◌, ◌≡◌, ◌≢◌, refl, ap, true, none, ◌∙◌, Bool-cases, inl, inr,
  if◌then◌else◌,
}
use kws_control.Common.Text.{GoString, codes, str_eq, str_eq_iff}
use kws_control.Util.Search.{
  find_text, remove_first-append, remove_first_absent, has_suffix, remove_first,
}
use kws_control.Util.Logger.{repository_mark, shown_file, project_root, Names, path_text}

-- Of a file under the project's root the path from the root is shown, if neither the root nor the
-- repository's name stands in it.
shown_file-root :
    (root path : GoString)
    → root ≢ []
    → find_text root path ≡ none
    → find_text repository_mark path ≡ none
    → shown_file root (root ++ codes "/" ++ path) ≡ path
unfolding shown_file
shown_file-root root path h no_root no_mark = elim (Bool-cases (str_eq root [])) [
  | inl empty ↦ absurd (h ((str_eq_iff root []).0 empty))
  | inr other ↦
      let file : GoString = root ++ codes "/" ++ path in
      let first : remove_first (root ++ codes "/") file ≡ path =
        remove_first-append (root ++ codes "/") path in
      let cut : remove_first root (remove_first (root ++ codes "/") file) ≡ path =
        ap (remove_first root) first ∙ remove_first_absent root path no_root in
      let chosen : shown_file root file ≡ remove_first repository_mark path =
        ap
          (λ b.
            remove_first repository_mark
              (if b then file else remove_first root (remove_first (root ++ codes "/") file)))
          other
        ∙ ap (remove_first repository_mark) cut in
      chosen ∙ remove_first_absent repository_mark path no_mark
]

-- A root that is found ends in "KWS_Control".
project_root-has_suffix :
    (absolute : Bool) (dir : Names)
    → project_root absolute dir ≢ []
    → has_suffix (project_root absolute dir) (codes "KWS_Control") ≡ true
unfolding project_root str_eq
project_root-has_suffix true [] h = absurd (h refl)
project_root-has_suffix false [] h = absurd (h refl)
project_root-has_suffix absolute (name ∷ parent) h =
    elim (Bool-cases (has_suffix (path_text absolute (name ∷ parent)) (codes "KWS_Control"))) [
      | inl found ↦
          ap
            (λ b.
              has_suffix
                (if b then path_text absolute (name ∷ parent) else project_root absolute parent)
                (codes "KWS_Control"))
            found
          ∙ found
      | inr other ↦
          let above : project_root absolute (name ∷ parent) ≡ project_root absolute parent =
            ap (λ b. if b then path_text absolute (name ∷ parent) else project_root absolute parent)
              other in
          ap (λ s. has_suffix s (codes "KWS_Control")) above
          ∙ project_root-has_suffix absolute parent (λ e. h (above ∙ e))
    ]
