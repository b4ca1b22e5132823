-- ===== src/Messages/Selinux.antt =====
-- crates/owlsentry-daemon/src/messages.rs: the messages of the audit monitor.
use owl_sentry.Base.{[], ◌∷◌, nat_eq, list_eq, pair_eq}
use owl_sentry.Text.{Text, codes, format}
use owl_sentry.Text.Numbers.{int_eq}
use owl_sentry.I18n.{Lang, fr, en}
use owl_sentry.Messages.Msg.{Msg}

unfoldable pub avc_denial : Lang → Text → Text → Text → Text → Text → Text → Msg
avc_denial fr comm perms target tclass scontext tcontext = record {
  title = format (codes "Refus SELinux (AVC) : " ∷ comm ∷ codes " → " ∷ target ∷ []);
  what = format (
      codes "Le processus « "
      ∷ comm
      ∷ codes " » (contexte "
      ∷ scontext
      ∷ codes ") s'est vu refuser { "
      ∷ perms
      ∷ codes " } sur « "
      ∷ target
      ∷ codes " » (classe "
      ∷ tclass
      ∷ codes ", contexte "
      ∷ tcontext
      ∷ codes ")."
      ∷ []);
  why =
      codes
        "SELinux a bloqué un accès non autorisé par la politique. Cela peut révéler un programme compromis, une élévation de privilèges ou une mauvaise configuration.";
  how = format (
      codes "Vérifiez la légitimité du processus : `ausearch -m avc -c '"
      ∷ comm
      ∷ codes
          "'`. Si l'accès est illégitime, arrêtez le processus et inspectez son origine. N'assouplissez la politique (`audit2allow`) qu'après analyse."
      ∷ []);
}
avc_denial en comm perms target tclass scontext tcontext = record {
  title = format (codes "SELinux denial (AVC): " ∷ comm ∷ codes " → " ∷ target ∷ []);
  what = format (
      codes "Process \""
      ∷ comm
      ∷ codes "\" (context "
      ∷ scontext
      ∷ codes ") was denied { "
      ∷ perms
      ∷ codes " } on \""
      ∷ target
      ∷ codes "\" (class "
      ∷ tclass
      ∷ codes ", context "
      ∷ tcontext
      ∷ codes ")."
      ∷ []);
  why =
      codes
        "SELinux blocked an access not allowed by policy. This may indicate a compromised program, privilege escalation, or misconfiguration.";
  how = format (
      codes "Check the process legitimacy: `ausearch -m avc -c '"
      ∷ comm
      ∷ codes
          "'`. If the access is illegitimate, stop the process and investigate. Only relax the policy (`audit2allow`) after analysis."
      ∷ []);
}

unfoldable pub selinux_tool_used : Lang → Text → Text → Msg
selinux_tool_used fr exe auid = record {
  title = format (codes "Outil SELinux exécuté : " ∷ exe ∷ []);
  what =
      format
        (codes "La commande « " ∷ exe ∷ codes " » a été exécutée (auid=" ∷ auid ∷ codes ")." ∷ []);
  why =
      codes
        "Les changements de contexte ou de politique SELinux (chcon, restorecon, semodule…) peuvent préparer une élévation de privilèges ou masquer une compromission.";
  how = format (
      codes "Vérifiez qui a lancé la commande : `ausearch -x "
      ∷ exe
      ∷ codes " -i`. Restaurez les contextes si nécessaire : `restorecon -Rv <chemin>`."
      ∷ []);
}
selinux_tool_used en exe auid = record {
  title = format (codes "SELinux tool executed: " ∷ exe ∷ []);
  what =
      format (codes "Command \"" ∷ exe ∷ codes "\" was executed (auid=" ∷ auid ∷ codes ")." ∷ []);
  why =
      codes
        "SELinux context or policy changes (chcon, restorecon, semodule…) can stage privilege escalation or hide a compromise.";
  how = format (
      codes "Check who ran it: `ausearch -x "
      ∷ exe
      ∷ codes " -i`. Restore contexts if needed: `restorecon -Rv <path>`."
      ∷ []);
}

unfoldable pub enforcing_disabled : Lang → Msg
enforcing_disabled fr = record {
  title = codes "SELinux passé en mode permissif";
  what = codes "Le mode « enforcing » de SELinux a été désactivé (setenforce 0).";
  why =
      codes
        "Désactiver SELinux est une action typique d'un attaquant qui veut neutraliser les protections avant d'agir.";
  how =
      codes
        "Réactivez immédiatement : `setenforce 1`. Identifiez l'auteur : `ausearch -m MAC_STATUS -i`. Vérifiez `/etc/selinux/config`.";
}
enforcing_disabled en = record {
  title = codes "SELinux switched to permissive";
  what = codes "SELinux enforcing mode was disabled (setenforce 0).";
  why =
      codes "Disabling SELinux is a typical attacker move to neutralize protections before acting.";
  how =
      codes
        "Re-enable immediately: `setenforce 1`. Identify the author: `ausearch -m MAC_STATUS -i`. Check `/etc/selinux/config`.";
}

unfoldable pub policy_loaded : Lang → Msg
policy_loaded fr = record {
  title = codes "Politique SELinux (re)chargée";
  what = codes "Un module ou une politique SELinux a été chargé (MAC_POLICY_LOAD).";
  why = codes "Un module malveillant peut ouvrir des permissions dans la politique.";
  how =
      codes
        "Listez les modules récents : `semodule -l`. Comparez avec votre référence et supprimez tout module inconnu : `semodule -r <module>`.";
}
policy_loaded en = record {
  title = codes "SELinux policy (re)loaded";
  what = codes "A SELinux module or policy was loaded (MAC_POLICY_LOAD).";
  why = codes "A malicious module can open permissions in the policy.";
  how =
      codes
        "List modules: `semodule -l`. Compare against your baseline and remove unknown modules: `semodule -r <module>`.";
}
