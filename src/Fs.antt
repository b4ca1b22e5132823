-- ===== src/Fs.antt =====
-- crates/owlsentry-daemon/src/monitors/fs.rs: which events on files become alerts, and the loop that
-- lets one alert through for a path in each window of time.
pub mod Monitor
pub mod Watch
pub mod Rules
pub mod Debounce
pub mod Spacing
mod Tests
use owl_sentry.Base.{
  Bool, true, false, not, ◌&&◌, ◌||◌, Option, none, some, List, [], ◌∷◌, ◌++◌, if◌then◌else◌,
  or_default, any, all, ◌==◌, nat_eq, list_eq, pair_eq, contains,
}
use owl_sentry.Text.{
  Text, codes, byte_len, is_ascii_digit, to_ascii_lowercase, is_empty, after_last,
}
use owl_sentry.Alert.Types.{
  with_meta, DateTime, Alert, Severity, medium, high, critical, filesystem,
}
use owl_sentry.I18n.{Lang, fr, en}
use owl_sentry.Messages.Files.{sensitive_file_changed, suspicious_file_created, log_deleted}
use owl_sentry.Channel.{alert_of}
use owl_sentry.FilePath.{component_eq, components, path_starts_with, file_name, extension}

pub data FsAction : Type 0 where
  create : FsAction
  modify : FsAction
  metadata_change : FsAction
  remove_file : FsAction

-- `FsAction::describe`
unfoldable pub describe : Lang → FsAction → Text
describe fr create = codes "création"
describe fr modify = codes "modification du contenu"
describe fr metadata_change = codes "changement de permissions/propriétaire/contexte"
describe fr remove_file = codes "suppression"
describe en create = codes "creation"
describe en modify = codes "content modification"
describe en metadata_change = codes "permissions/owner/context change"
describe en remove_file = codes "removal"

-- The derived `Debug` of `FsAction`
unfoldable pub debug_action : FsAction → Text
debug_action create = codes "Create"
debug_action modify = codes "Modify"
debug_action metadata_change = codes "MetadataChange"
debug_action remove_file = codes "Remove"

abbrev pub is_create : FsAction → Bool
is_create create = true
is_create _ = false

abbrev pub is_remove : FsAction → Bool
is_remove remove_file = true
is_remove _ = false

pub record FsRules : Type 0 where
  pub sensitive_paths : List Text
  pub suspicious_extensions : List Text
  pub suspicious_dirs : List Text
  pub ignore_paths : List Text

unfoldable pub path_starts_with_any : Text → List Text → Bool
path_starts_with_any path prefixes = any (λ p. path_starts_with path p) prefixes

abbrev all_digits : Text → Bool
all_digits = all is_ascii_digit

unfoldable pub looks_like_rotated_log : Text → Bool
looks_like_rotated_log path =
    let name = or_default [] (file_name path) in
    let ext = after_last b'.' name in
    let suffix = after_last b'-' name in
    (contains ext (codes "gz" ∷ codes "xz" ∷ codes "zst" ∷ codes "bz2" ∷ codes "old" ∷ []))
    || (not (is_empty ext) && all_digits ext)
    || ((byte_len suffix == 8) && all_digits suffix)

unfoldable pub sensitive_severity : FsAction → Severity
sensitive_severity remove_file = critical
sensitive_severity modify = high
sensitive_severity metadata_change = high
sensitive_severity create = medium

-- The three cases of `classify`, in their order.
unfoldable pub sensitive_alert : FsAction → Text → Lang → DateTime → Alert
unfolding sensitive_severity describe debug_action
sensitive_alert action path lang now = with_meta (codes "action") (debug_action action) (
    with_meta (codes "path") path (
      alert_of (sensitive_severity action) filesystem
        (sensitive_file_changed lang path (describe lang action)) now))

unfoldable pub log_alert : Text → Lang → DateTime → Alert
log_alert path lang now =
    with_meta (codes "path") path (alert_of high filesystem (log_deleted lang path) now)

unfoldable pub suspicious_alert : Text → Lang → DateTime → Alert
suspicious_alert path lang now =
    with_meta (codes "path") path
      (alert_of medium filesystem (suspicious_file_created lang path) now)

-- `classify`; the alert still wants the time at which it is made.
unfoldable pub classify : FsAction → Text → FsRules → Lang → Option (DateTime → Alert)
unfolding path_starts_with_any
classify action path rules lang =
    if path_starts_with_any path rules.ignore_paths
    then none
    else if path_starts_with_any path rules.sensitive_paths
    then some (sensitive_alert action path lang)
    else if is_remove action
        && path_starts_with path (codes "/var/log")
        && not (looks_like_rotated_log path)
    then some (log_alert path lang)
    else if is_create action
        && path_starts_with_any path rules.suspicious_dirs
        && contains (to_ascii_lowercase (or_default [] (extension path)))
            rules.suspicious_extensions
    then some (suspicious_alert path lang)
    else none

-- crates/owlsentry-daemon/src/main.rs: the directory of the daemon's own logs is always ignored.
-- Paths are equal if their components are.
unfoldable pub with_log_dir : Text → FsRules → FsRules
with_log_dir log_dir rules =
    if any (λ p. components log_dir == components p) rules.ignore_paths
    then rules
    else record rules { ignore_paths = rules.ignore_paths ++ (log_dir ∷ []) }
