-- ===== src/Messages/Processes.antt =====
-- crates/owlsentry-daemon/src/messages.rs: the messages of the process monitor.
use owl_sentry.Base.{[], ◌∷◌, nat_eq, list_eq, pair_eq}
use owl_sentry.Text.{Text, codes, format}
use owl_sentry.Text.Numbers.{int_eq, show_int, ℤ}
use owl_sentry.I18n.{Lang, fr, en}
use owl_sentry.Messages.Msg.{Msg}

unfoldable pub ld_preload : Lang → ℤ → Text → Text → Msg
ld_preload fr pid comm value = record {
  title =
      format
        (codes "LD_PRELOAD détecté : " ∷ comm ∷ codes " (pid " ∷ show_int pid ∷ codes ")" ∷ []);
  what = format (
      codes "Le processus « "
      ∷ comm
      ∷ codes " » (pid "
      ∷ show_int pid
      ∷ codes ") tourne avec LD_PRELOAD="
      ∷ value
      ∷ codes "."
      ∷ []);
  why =
      codes
        "LD_PRELOAD permet d'injecter une bibliothèque dans un processus : technique classique de rootkit en espace utilisateur.";
  how = format (
      codes "Vérifiez la bibliothèque : `ls -lZ "
      ∷ value
      ∷ codes "` et `rpm -qf "
      ∷ value
      ∷ codes "`. Vérifiez aussi `/etc/ld.so.preload`. Tuez le processus si illégitime."
      ∷ []);
}
ld_preload en pid comm value = record {
  title =
      format
        (codes "LD_PRELOAD detected: " ∷ comm ∷ codes " (pid " ∷ show_int pid ∷ codes ")" ∷ []);
  what = format (
      codes "Process \""
      ∷ comm
      ∷ codes "\" (pid "
      ∷ show_int pid
      ∷ codes ") runs with LD_PRELOAD="
      ∷ value
      ∷ codes "."
      ∷ []);
  why = codes "LD_PRELOAD injects a library into a process: a classic userspace rootkit technique.";
  how = format (
      codes "Check the library: `ls -lZ "
      ∷ value
      ∷ codes "` and `rpm -qf "
      ∷ value
      ∷ codes "`. Also check `/etc/ld.so.preload`. Kill the process if illegitimate."
      ∷ []);
}

unfoldable pub deleted_exe : Lang → ℤ → Text → Msg
deleted_exe fr pid comm = record {
  title = format (codes "Exécutable supprimé en cours d'exécution : " ∷ comm ∷ []);
  what = format (
      codes "Le processus « "
      ∷ comm
      ∷ codes " » (pid "
      ∷ show_int pid
      ∷ codes ") s'exécute depuis un binaire supprimé du disque."
      ∷ []);
  why =
      codes
        "Les malwares se suppriment souvent après lancement pour échapper à l'analyse (fileless persistence).";
  how = format (
      codes "Récupérez le binaire pour analyse : `cp /proc/"
      ∷ show_int pid
      ∷ codes "/exe /root/quarantine_"
      ∷ show_int pid
      ∷ codes "`. Puis inspectez et tuez le processus si illégitime."
      ∷ []);
}
deleted_exe en pid comm = record {
  title = format (codes "Deleted executable still running: " ∷ comm ∷ []);
  what = format (
      codes "Process \""
      ∷ comm
      ∷ codes "\" (pid "
      ∷ show_int pid
      ∷ codes ") runs from a binary deleted from disk."
      ∷ []);
  why = codes "Malware often deletes itself after launch to evade analysis (fileless persistence).";
  how = format (
      codes "Recover the binary for analysis: `cp /proc/"
      ∷ show_int pid
      ∷ codes "/exe /root/quarantine_"
      ∷ show_int pid
      ∷ codes "`. Then inspect and kill the process if illegitimate."
      ∷ []);
}

unfoldable pub tmp_exec : Lang → ℤ → Text → Text → Msg
tmp_exec fr pid comm path = record {
  title = format (codes "Processus lancé depuis un répertoire temporaire : " ∷ comm ∷ []);
  what = format (
      codes "Le processus « "
      ∷ comm
      ∷ codes " » (pid "
      ∷ show_int pid
      ∷ codes ") s'exécute depuis "
      ∷ path
      ∷ codes "."
      ∷ []);
  why =
      codes
        "Les binaires légitimes ne s'exécutent pas depuis /tmp ou /dev/shm ; c'est un emplacement de prédilection pour les charges malveillantes.";
  how = format (
      codes "Inspectez : `cat /proc/"
      ∷ show_int pid
      ∷ codes "/cmdline`, `ls -lZ "
      ∷ path
      ∷ codes "`. Tuez le processus et supprimez le binaire si illégitime."
      ∷ []);
}
tmp_exec en pid comm path = record {
  title = format (codes "Process running from temporary directory: " ∷ comm ∷ []);
  what = format (
      codes "Process \""
      ∷ comm
      ∷ codes "\" (pid "
      ∷ show_int pid
      ∷ codes ") is executing from "
      ∷ path
      ∷ codes "."
      ∷ []);
  why =
      codes
        "Legitimate binaries do not run from /tmp or /dev/shm; it is a favorite location for malicious payloads.";
  how = format (
      codes "Inspect: `cat /proc/"
      ∷ show_int pid
      ∷ codes "/cmdline`, `ls -lZ "
      ∷ path
      ∷ codes "`. Kill the process and remove the binary if illegitimate."
      ∷ []);
}

unfoldable pub hidden_process : Lang → ℤ → Msg
hidden_process fr pid = record {
  title = format (codes "Processus caché détecté : pid " ∷ show_int pid ∷ []);
  what = format (
      codes "Le pid "
      ∷ show_int pid
      ∷ codes
          " existe (référencé comme parent et présent dans /proc) mais n'apparaît pas dans l'énumération du répertoire /proc."
      ∷ []);
  why = codes "Masquer un processus de l'énumération est un comportement de rootkit.";
  how = format (
      codes "Vérifiez : `cat /proc/"
      ∷ show_int pid
      ∷ codes "/status`, `ls -l /proc/"
      ∷ show_int pid
      ∷ codes
          "/exe`. Comparez `ps aux` et /proc. En cas de doute, isolez la machine et analysez-la hors ligne."
      ∷ []);
}
hidden_process en pid = record {
  title = format (codes "Hidden process detected: pid " ∷ show_int pid ∷ []);
  what = format (
      codes "Pid "
      ∷ show_int pid
      ∷ codes
          " exists (referenced as a parent and present in /proc) but does not appear when enumerating the /proc directory."
      ∷ []);
  why = codes "Hiding a process from enumeration is rootkit behavior.";
  how = format (
      codes "Check: `cat /proc/"
      ∷ show_int pid
      ∷ codes "/status`, `ls -l /proc/"
      ∷ show_int pid
      ∷ codes
          "/exe`. Compare `ps aux` with /proc. If in doubt, isolate the machine and analyze it offline."
      ∷ []);
}
