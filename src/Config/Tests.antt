-- ===== src/Config/Tests.antt =====
-- The default configuration and the default rules.
use owl_sentry.Base.{◌≡◌, refl, ◌↔◌, none, nat_eq, list_eq, pair_eq}
use owl_sentry.Text.{Text, codes}
use owl_sentry.FilePath.{component_eq}
use owl_sentry.Config.Types.{default_config}
use owl_sentry.Config.Rules.{default_rules, load_or_default}
use owl_sentry.Config.Validate.{validate, IsValid, validate_iff, ok, not_found}

abbrev plain : Text → Text
plain t = t

validate_iff_example : (validate plain default_config ≡ ok tt) ↔ IsValid default_config
validate_iff_example = validate_iff plain default_config

-- Without a file of rules, the defaults are in force.
default_ignores :
    load_or_default (λ p. not_found) (λ t. none) (codes "/etc/owlsentry/rules.toml")
    ≡ ok default_rules
unfolding load_or_default
default_ignores = refl
