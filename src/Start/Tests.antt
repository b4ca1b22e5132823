-- ===== src/Start/Tests.antt =====
-- The start at sample inputs: no configuration and no rules, all calls succeed.
use owl_sentry.Base.{◌≡◌, refl, inl, inr, true, false, none, All, In, nat_eq, list_eq, pair_eq}
use owl_sentry.Text.{split_on, codes}
use owl_sentry.FilePath.{is_prefix, path_starts_with, components}
use owl_sentry.I18n.{from_code}
use owl_sentry.Fs.{classify, with_log_dir, FsRules, modify}
use owl_sentry.Config.Types.{default_config}
use owl_sentry.Config.Validate.{not_found}
use owl_sentry.Config.Rules.{default_rules, load_or_default}
use owl_sentry.Start.{
  main, load_config, init, tasks, monitors, default_args, server_of, Args, Outside, removes,
  removed, refused, warns_socket, good,
}
use owl_sentry.Start.Sound.{IsSound, main-IsSound, main-ignores_own_logs}
use owl_sentry.Start.Exits.{main-cleans}

abbrev outside : Outside
outside = record {
  exists = λ p. false;
  read_to_string = λ p. not_found;
  parse_config = λ t. none;
  parse_rules = λ t. none;
  debug_text = λ t. t;
  is_filter = λ t. true;
  dir_ok = true;
  mode_ok = true;
  tracing_ok = true;
  sigterm_ok = true;
  remove_file = λ p. removed;
}

main-IsSound_example : All IsSound (main outside default_args).effects
main-IsSound_example = main-IsSound outside default_args

abbrev ignoring : FsRules
ignoring = with_log_dir default_config.general.log_dir default_rules.filesystem

main-ignores_own_logs_example :
    classify modify (codes "/var/log/owlsentry/daemon.log") ignoring (from_code (codes "fr")) ≡ none
unfolding main load_config load_or_default tasks monitors default_config init path_starts_with
    is_prefix components split_on
main-ignores_own_logs_example =
    main-ignores_own_logs outside default_args default_config default_rules
      default_config.filesystem ignoring (from_code (codes "fr")) modify
      (codes "/var/log/owlsentry/daemon.log") refl (inr (inr (inr (inl refl)))) refl

abbrev check_args : Args
check_args = record default_args { check_config = true }

main-cleans_example :
    In (removes (codes "/run/owlsentry/owlsentry.sock")) (main outside default_args).effects
unfolding main load_config load_or_default tasks monitors default_config init
main-cleans_example =
    main-cleans outside default_args (server_of default_config.general) refl
      (inr (inr (inr (inr (inr (inr (inl refl)))))))

-- A socket that cannot be removed is a warning only, and `main` succeeds.
abbrev guarded : Outside
guarded = record outside { remove_file = λ p. refused }

warned :
    ((main guarded default_args).exit ≡ good tt)
    × In warns_socket (main guarded default_args).effects
unfolding main load_config load_or_default tasks monitors default_config init
warned = (
  refl,
  main-cleans guarded default_args (server_of default_config.general) refl
      (inr (inr (inr (inr (inr (inr (inl refl))))))),
)
