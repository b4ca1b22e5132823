-- ===== src/Messages/Network.antt =====
-- crates/owlsentry-daemon/src/messages.rs: the messages of the network monitor.
use owl_sentry.Base.{ℕ, Bool, true, false, [], ◌∷◌, nat_eq, list_eq, pair_eq}
use owl_sentry.Text.{Text, codes, format}
use owl_sentry.Text.Numbers.{int_eq, show_nat, show_int, ℤ}
use owl_sentry.I18n.{Lang, fr, en}
use owl_sentry.Messages.Msg.{Msg}

unfoldable pub new_listener : Lang → Text → ℕ → Msg
new_listener fr proto port = record {
  title = format (codes "Nouveau port en écoute : " ∷ show_nat port ∷ codes "/" ∷ proto ∷ []);
  what = format (
      codes "Un service s'est mis en écoute sur le port "
      ∷ show_nat port
      ∷ codes "/"
      ∷ proto
      ∷ codes "."
      ∷ []);
  why = codes "Un port en écoute inattendu peut être une porte dérobée ou un service non autorisé.";
  how = format (
      codes "Identifiez le processus : `ss -tlnp | grep :"
      ∷ show_nat port
      ∷ codes "`. Si illégitime, arrêtez-le et bloquez le port : `firewall-cmd --remove-port="
      ∷ show_nat port
      ∷ codes "/"
      ∷ proto
      ∷ codes "`."
      ∷ []);
}
new_listener en proto port = record {
  title = format (codes "New listening port: " ∷ show_nat port ∷ codes "/" ∷ proto ∷ []);
  what = format (
      codes "A service started listening on port "
      ∷ show_nat port
      ∷ codes "/"
      ∷ proto
      ∷ codes "."
      ∷ []);
  why = codes "An unexpected listening port can be a backdoor or unauthorized service.";
  how = format (
      codes "Identify the process: `ss -tlnp | grep :"
      ∷ show_nat port
      ∷ codes "`. If illegitimate, stop it and block the port: `firewall-cmd --remove-port="
      ∷ show_nat port
      ∷ codes "/"
      ∷ proto
      ∷ codes "`."
      ∷ []);
}

-- The sentence about the block, in each language.
fr_block : Text → Bool → Text
fr_block ip true = codes " L'IP a été bloquée temporairement via firewalld."
fr_block ip false = format (
    codes
      " Pour bloquer manuellement : `firewall-cmd --add-rich-rule='rule family=ipv4 source address="
    ∷ ip
    ∷ codes " drop' --timeout=3600`."
    ∷ [])

en_block : Text → Bool → Text
en_block ip true = codes " The IP was temporarily blocked via firewalld."
en_block ip false = format (
    codes " To block manually: `firewall-cmd --add-rich-rule='rule family=ipv4 source address="
    ∷ ip
    ∷ codes " drop' --timeout=3600`."
    ∷ [])

unfoldable pub port_scan : Lang → Text → ℕ → Bool → Msg
unfolding fr_block en_block
port_scan fr ip ports blocked = record {
  title = format (codes "Scan de ports depuis " ∷ ip ∷ []);
  what = format (
      codes "L'adresse "
      ∷ ip
      ∷ codes " a sondé "
      ∷ show_nat ports
      ∷ codes " ports distincts en peu de temps."
      ∷ []);
  why =
      codes
        "Un balayage de ports précède généralement une tentative d'intrusion ciblée sur les services découverts.";
  how = format (
      codes "Vérifiez les connexions actives : `ss -tn | grep "
      ∷ ip
      ∷ codes "`."
      ∷ fr_block ip blocked
      ∷ []);
}
port_scan en ip ports blocked = record {
  title = format (codes "Port scan from " ∷ ip ∷ []);
  what = format (
      codes "Address "
      ∷ ip
      ∷ codes " probed "
      ∷ show_nat ports
      ∷ codes " distinct ports in a short time."
      ∷ []);
  why = codes "A port sweep usually precedes a targeted intrusion attempt on discovered services.";
  how = format (
      codes "Check active connections: `ss -tn | grep "
      ∷ ip
      ∷ codes "`."
      ∷ en_block ip blocked
      ∷ []);
}

unfoldable pub shell_connection : Lang → Text → ℤ → Text → Msg
shell_connection fr comm pid remote = record {
  title = format (codes "Connexion sortante d'un interpréteur : " ∷ comm ∷ []);
  what = format (
      codes "Le processus « "
      ∷ comm
      ∷ codes " » (pid "
      ∷ show_int pid
      ∷ codes ") a une connexion établie vers "
      ∷ remote
      ∷ codes "."
      ∷ []);
  why =
      codes
        "Un shell qui ouvre une connexion réseau est le signe typique d'un « reverse shell » ou d'une exfiltration.";
  how = format (
      codes "Inspectez le processus : `ls -l /proc/"
      ∷ show_int pid
      ∷ codes "/exe`, `cat /proc/"
      ∷ show_int pid
      ∷ codes "/cmdline`. Si illégitime : `kill -9 "
      ∷ show_int pid
      ∷ codes "` puis bloquez la destination via firewalld."
      ∷ []);
}
shell_connection en comm pid remote = record {
  title = format (codes "Outbound connection from interpreter: " ∷ comm ∷ []);
  what = format (
      codes "Process \""
      ∷ comm
      ∷ codes "\" (pid "
      ∷ show_int pid
      ∷ codes ") has an established connection to "
      ∷ remote
      ∷ codes "."
      ∷ []);
  why =
      codes
        "A shell opening a network connection is the typical sign of a reverse shell or data exfiltration.";
  how = format (
      codes "Inspect the process: `ls -l /proc/"
      ∷ show_int pid
      ∷ codes "/exe`, `cat /proc/"
      ∷ show_int pid
      ∷ codes "/cmdline`. If illegitimate: `kill -9 "
      ∷ show_int pid
      ∷ codes "` then block the destination via firewalld."
      ∷ []);
}

unfoldable pub suspicious_port_connection : Lang → Text → ℕ → Msg
suspicious_port_connection fr remote port = record {
  title = format (codes "Connexion vers un port suspect : " ∷ remote ∷ []);
  what = format (
      codes "Une connexion est établie vers "
      ∷ remote
      ∷ codes " (port "
      ∷ show_nat port
      ∷ codes ", associé à des portes dérobées connues)."
      ∷ []);
  why =
      codes
        "Certains ports (4444, 31337…) sont traditionnellement utilisés par des outils d'attaque (Metasploit, backdoors IRC…).";
  how = format (
      codes "Identifiez le processus : `ss -tnp | grep "
      ∷ show_nat port
      ∷ codes "` puis inspectez-le."
      ∷ []);
}
suspicious_port_connection en remote port = record {
  title = format (codes "Connection to suspicious port: " ∷ remote ∷ []);
  what = format (
      codes "A connection is established to "
      ∷ remote
      ∷ codes " (port "
      ∷ show_nat port
      ∷ codes ", associated with known backdoors)."
      ∷ []);
  why =
      codes
        "Some ports (4444, 31337…) are traditionally used by attack tooling (Metasploit, IRC backdoors…).";
  how = format (
      codes "Identify the process: `ss -tnp | grep "
      ∷ show_nat port
      ∷ codes "` and inspect it."
      ∷ []);
}
