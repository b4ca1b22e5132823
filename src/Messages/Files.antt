-- ===== src/Messages/Files.antt =====
-- crates/owlsentry-daemon/src/messages.rs: the messages of the file monitor.
use owl_sentry.Base.{[], ◌∷◌, nat_eq, list_eq, pair_eq}
use owl_sentry.Text.{Text, codes, format}
use owl_sentry.Text.Numbers.{int_eq}
use owl_sentry.I18n.{Lang, fr, en}
use owl_sentry.Messages.Msg.{Msg}

unfoldable pub sensitive_file_changed : Lang → Text → Text → Msg
sensitive_file_changed fr path action = record {
  title = format (codes "Fichier sensible modifié : " ∷ path ∷ []);
  what =
      format
        (codes "Le fichier critique « " ∷ path ∷ codes " » a subi : " ∷ action ∷ codes "." ∷ []);
  why =
      codes
        "Les fichiers d'authentification et de configuration système sont des cibles privilégiées (persistance, création de comptes, portes dérobées).";
  how = format (
      codes "Comparez avec la base RPM : `rpm -Vf "
      ∷ path
      ∷ codes "`. Vérifiez le contexte SELinux : `ls -Z "
      ∷ path
      ∷ codes "` puis `restorecon -v "
      ∷ path
      ∷ codes "` si besoin. Identifiez l'auteur via auditd : `ausearch -f "
      ∷ path
      ∷ codes " -i`."
      ∷ []);
}
sensitive_file_changed en path action = record {
  title = format (codes "Sensitive file changed: " ∷ path ∷ []);
  what =
      format (codes "Critical file \"" ∷ path ∷ codes "\" underwent: " ∷ action ∷ codes "." ∷ []);
  why =
      codes
        "Authentication and system configuration files are prime targets (persistence, account creation, backdoors).";
  how = format (
      codes "Compare with the RPM database: `rpm -Vf "
      ∷ path
      ∷ codes "`. Check the SELinux context: `ls -Z "
      ∷ path
      ∷ codes "` then `restorecon -v "
      ∷ path
      ∷ codes "` if needed. Identify the author via auditd: `ausearch -f "
      ∷ path
      ∷ codes " -i`."
      ∷ []);
}

unfoldable pub suspicious_file_created : Lang → Text → Msg
suspicious_file_created fr path = record {
  title = format (codes "Fichier suspect créé : " ∷ path ∷ []);
  what = format (
      codes "Un fichier exécutable/script « "
      ∷ path
      ∷ codes " » est apparu dans un répertoire temporaire."
      ∷ []);
  why =
      codes
        "Les logiciels malveillants déposent souvent leurs charges dans /tmp, /var/tmp ou /dev/shm avant exécution.";
  how = format (
      codes "Inspectez le fichier sans l'exécuter : `file "
      ∷ path
      ∷ codes "`, `stat "
      ∷ path
      ∷ codes "`. Identifiez le créateur : `ausearch -f "
      ∷ path
      ∷ codes " -i`. Supprimez-le si illégitime et recherchez le processus déposant."
      ∷ []);
}
suspicious_file_created en path = record {
  title = format (codes "Suspicious file created: " ∷ path ∷ []);
  what = format (
      codes "An executable/script file \""
      ∷ path
      ∷ codes "\" appeared in a temporary directory."
      ∷ []);
  why = codes "Malware often drops payloads in /tmp, /var/tmp or /dev/shm before execution.";
  how = format (
      codes "Inspect without executing: `file "
      ∷ path
      ∷ codes "`, `stat "
      ∷ path
      ∷ codes "`. Identify the creator: `ausearch -f "
      ∷ path
      ∷ codes " -i`. Remove if illegitimate and hunt the dropping process."
      ∷ []);
}

unfoldable pub log_deleted : Lang → Text → Msg
log_deleted fr path = record {
  title = format (codes "Suppression de journal : " ∷ path ∷ []);
  what = format (codes "Le fichier de journal « " ∷ path ∷ codes " » a été supprimé." ∷ []);
  why =
      codes
        "La suppression de journaux est une technique classique d'effacement de traces après intrusion.";
  how =
      codes
        "Vérifiez s'il s'agit d'une rotation légitime (logrotate). Sinon, identifiez l'auteur : `ausearch -f <chemin> -i` et considérez la machine comme potentiellement compromise.";
}
log_deleted en path = record {
  title = format (codes "Log deletion: " ∷ path ∷ []);
  what = format (codes "Log file \"" ∷ path ∷ codes "\" was deleted." ∷ []);
  why = codes "Deleting logs is a classic trace-wiping technique after an intrusion.";
  how =
      codes
        "Check whether this is legitimate rotation (logrotate). Otherwise identify the author: `ausearch -f <path> -i` and treat the host as potentially compromised.";
}
