-- ===== src/Config/Rules.antt =====
-- crates/owlsentry-common/src/config.rs: the rules of detection with their defaults, and
-- `load_or_default`. The reading of the file and of its TOML are parameters.
use owl_sentry.Base.{ℕ, Option, none, some, List, [], ◌∷◌, nat_eq, list_eq, pair_eq}
use owl_sentry.Text.{Text, codes}
use owl_sentry.Fs.{FsRules}
use owl_sentry.Audit.Monitor.{SelinuxRules}
use owl_sentry.Config.Types.{io, parse}
use owl_sentry.Config.Validate.{Loaded, ok, err, FileRead, contents, not_found, unreadable}

unfoldable pub default_fs_rules : FsRules
default_fs_rules = record {
  sensitive_paths =
      codes "/etc/passwd"
      ∷ codes "/etc/shadow"
      ∷ codes "/etc/gshadow"
      ∷ codes "/etc/group"
      ∷ codes "/etc/sudoers"
      ∷ codes "/etc/sudoers.d"
      ∷ codes "/etc/ssh/sshd_config"
      ∷ codes "/etc/pam.d"
      ∷ codes "/etc/crontab"
      ∷ codes "/etc/cron.d"
      ∷ codes "/etc/ld.so.preload"
      ∷ codes "/etc/ld.so.conf"
      ∷ codes "/etc/selinux/config"
      ∷ [];
  suspicious_extensions =
      codes "sh" ∷ codes "py" ∷ codes "pl" ∷ codes "so" ∷ codes "elf" ∷ codes "bin" ∷ [];
  suspicious_dirs = codes "/tmp" ∷ codes "/var/tmp" ∷ codes "/dev/shm" ∷ [];
  ignore_paths = codes "/var/log/owlsentry" ∷ [];
}

pub record NetRules : Type 0 where
  pub never_block : List Text
  pub suspicious_ports : List ℕ
  pub shell_processes : List Text

unfoldable pub default_net_rules : NetRules
default_net_rules = record {
  never_block = codes "127.0.0.1" ∷ codes "::1" ∷ [];
  suspicious_ports = 1337 ∷ 4444 ∷ 6667 ∷ 9001 ∷ 31337 ∷ [];
  shell_processes =
      codes "bash"
      ∷ codes "sh"
      ∷ codes "zsh"
      ∷ codes "dash"
      ∷ codes "nc"
      ∷ codes "ncat"
      ∷ codes "socat"
      ∷ [];
}

unfoldable pub default_selinux_rules : SelinuxRules
default_selinux_rules = record {
  critical_types =
      codes "shadow_t"
      ∷ codes "passwd_file_t"
      ∷ codes "sshd_key_t"
      ∷ codes "security_t"
      ∷ codes "auditd_log_t"
      ∷ codes "boot_t"
      ∷ codes "modules_object_t"
      ∷ codes "selinux_config_t"
      ∷ [];
  watched_commands =
      codes "chcon"
      ∷ codes "restorecon"
      ∷ codes "setenforce"
      ∷ codes "setsebool"
      ∷ codes "semodule"
      ∷ codes "semanage"
      ∷ [];
}

pub record Rules : Type 0 where
  pub filesystem : FsRules
  pub network : NetRules
  pub selinux : SelinuxRules

-- The derived default
unfoldable pub default_rules : Rules
unfolding default_fs_rules default_net_rules default_selinux_rules
default_rules = record {
  filesystem = default_fs_rules;
  network = default_net_rules;
  selinux = default_selinux_rules;
}

abbrev parsed_rules : Text → Option Rules → Loaded Rules
parsed_rules path none = err (parse path)
parsed_rules path (some rules) = ok rules

-- The `match` on what was read: a missing file stands for the defaults.
unfoldable pub rules_of_read : (Text → Option Rules) → Text → FileRead → Loaded Rules
unfolding default_rules
rules_of_read from_str path (contents raw) = parsed_rules path (from_str raw)
rules_of_read from_str path not_found = ok default_rules
rules_of_read from_str path unreadable = err (io path)

unfoldable pub load_or_default :
    (read_to_string : Text → FileRead) (from_str : Text → Option Rules) (path : Text) → Loaded Rules
unfolding rules_of_read
load_or_default read_to_string from_str path = rules_of_read from_str path (read_to_string path)
