-- ===== src/I18n.antt =====
-- crates/owlsentry-common/src/i18n.rs: the language and the labels of severities and categories.
pub mod Labels
mod Tests
use owl_sentry.Base.{◌||◌, if◌then◌else◌, nat_eq, list_eq, pair_eq}
use owl_sentry.Text.{Text, text_beq, codes, to_ascii_lowercase, trim}
use owl_sentry.Alert.Types.{
  Severity, info, low, medium, high, critical, Category, selinux, filesystem, network, process,
  audit, system,
}

pub data Lang : Type 0 where
  fr en : Lang

unfoldable pub from_code : Text → Lang
from_code code =
    let c = to_ascii_lowercase (trim code) in
    if text_beq c (codes "en") || text_beq c (codes "en_us") || text_beq c (codes "en_gb")
    then en
    else fr

unfoldable pub lang_code : Lang → Text
lang_code fr = codes "fr"
lang_code en = codes "en"

unfoldable pub severity_label : Lang → Severity → Text
severity_label fr info = codes "Info"
severity_label fr low = codes "Faible"
severity_label fr medium = codes "Moyenne"
severity_label fr high = codes "Élevée"
severity_label fr critical = codes "Critique"
severity_label en info = codes "Info"
severity_label en low = codes "Low"
severity_label en medium = codes "Medium"
severity_label en high = codes "High"
severity_label en critical = codes "Critical"

unfoldable pub category_label : Lang → Category → Text
category_label fr selinux = codes "SELinux"
category_label fr filesystem = codes "Fichiers"
category_label fr network = codes "Réseau"
category_label fr process = codes "Processus"
category_label fr audit = codes "Audit"
category_label fr system = codes "Système"
category_label en selinux = codes "SELinux"
category_label en filesystem = codes "Filesystem"
category_label en network = codes "Network"
category_label en process = codes "Process"
category_label en audit = codes "Audit"
category_label en system = codes "System"
