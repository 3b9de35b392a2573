-- ===== src/Operations/Artifacts.antt =====
-- The checks of the application actions in services/api/operations.py.
use android_farm.Prelude.{
  mem, Text, codes, Bool, true, false, not, ◌&&◌, ◌||◌, List, [], ◌∷◌, ◌++◌, all, length, Option,
  none, some, leb, ◌==◌, if◌then◌else◌, Result, ok, err, value_error, type_error, key_error, ◌>>=◌,
  ◌>>◌, raise_if,
}
use android_farm.Prelude.Dict.{Dict, lookup}
use android_farm.Json.{Json, str, arr, obj, elements}
use android_farm.Operations.Request.{
  check_fields, check_text, check_identifier, is_flag, Settings, Host, param, is_known, optional,
  is_digit, is_letter, is_word,
}

-- `\.?[A-Za-z][A-Za-z0-9_.$]*`
unfoldable pub is_class : Text → Bool
is_class [] = false
is_class (c ∷ []) = is_letter c
is_class (c ∷ d ∷ s) =
    if c == b'.'
    then is_letter d && all (λ x. is_word x || x == b'.' || x == b'$') s
    else is_letter c && all (λ x. is_word x || x == b'.' || x == b'$') (d ∷ s)

-- `[A-Za-z][A-Za-z0-9_]*(?:\.[A-Za-z][A-Za-z0-9_]*)*`, at the start of a part or inside one
unfoldable pub is_package : Bool → Text → Bool
is_package start [] = not start
is_package true (c ∷ s) = let rest = is_package false s in is_letter c && rest
is_package false (c ∷ s) = let rest = is_package (c == b'.') s in (is_word c || c == b'.') && rest

-- ACTIVITY_RE of ops/app_installer.py: the part before a slash is the package
unfoldable pub is_activity_from : Text → Text → Bool
is_activity_from before [] = is_class before
is_activity_from before (c ∷ s) =
    let rest = is_activity_from (before ++ c ∷ []) s in
    if c == b'/' then is_package true before && is_class s else rest

unfoldable pub check_activity : Json → Result Text
check_activity (str s) =
    if is_activity_from [] s then ok s else err (value_error "invalid Android activity")
check_activity _ = err (value_error "invalid Android activity")

abbrev pub allowed_grants : List Text
allowed_grants =
    codes "android.permission.CAMERA"
    ∷ codes "android.permission.READ_CONTACTS"
    ∷ codes "android.permission.RECORD_AUDIO"
    ∷ []

unfoldable pub is_hashable : Json → Bool
is_hashable (arr xs) = false
is_hashable (obj fs) = false
is_hashable _ = true

-- every one is a text that may be granted, and none stands twice
unfoldable pub add_grant : List Text → Json → Option (List Text)
add_grant seen (str s) = if mem s allowed_grants && not (mem s seen) then some (s ∷ seen) else none
add_grant seen _ = none

unfoldable pub are_grants : Option (List Text) → List Json → Bool
are_grants none vs = false
are_grants (some seen) [] = true
are_grants (some seen) (v ∷ vs) = are_grants (add_grant seen v) vs

unfoldable pub check_grants : Json → Result (Unit {0})
check_grants (arr xs) = do
  raise_if (not (leb (length (elements xs)) 3))
      (value_error "unsupported Android runtime permissions")
  raise_if (not (all is_hashable (elements xs))) (type_error "unhashable type")
  raise_if (not (are_grants (some []) (elements xs)))
      (value_error "unsupported Android runtime permissions")
check_grants _ = err (value_error "unsupported Android runtime permissions")

unfoldable pub check_permissions : Option Json → Result (Unit {0})
check_permissions none = ok tt
check_permissions (some v) = check_grants v

-- `[0-9a-f]{32}`
unfoldable pub is_upload : Text → Bool
is_upload s = length s == 32 && all (λ c. is_digit c || leb b'a' c && leb c b'f') s

-- `_staged_upload`
unfoldable pub check_staged : Settings → Json → Result (Unit {0})
check_staged c (str s) = do
  raise_if (not (is_upload s)) (value_error "invalid upload reference")
  c.staged s
check_staged c _ = err (value_error "invalid upload reference")

unfoldable pub check_import : Settings → Dict Json → Result (Unit {0})
check_import c params = do
  check_fields (codes "upload" ∷ [])
      (codes "label"
        ∷ codes "id"
        ∷ codes "permissions"
        ∷ codes "activity"
        ∷ codes "filename"
        ∷ codes "allow_signer_change"
        ∷ [])
      params
  check_staged c (param "upload" params)
  optional (check_text "invalid application label" 80) (lookup (codes "label") params)
  optional check_identifier (lookup (codes "id") params)
  optional (check_text "invalid source filename" 160) (lookup (codes "filename") params)
  optional check_activity (lookup (codes "activity") params)
  check_permissions (lookup (codes "permissions") params)
  raise_if (not (is_flag (lookup (codes "allow_signer_change") params)))
      (value_error "allow_signer_change must be a boolean")

unfoldable pub check_artifact : Host → Dict Json → Result (Unit {0})
check_artifact h params = do
  check_fields (codes "id" ∷ []) [] params
  id ← check_identifier (param "id" params)
  catalog ← h.catalog
  raise_if (not (is_known (lookup id catalog))) (key_error "application does not exist")
