-- ===== src/I18n/Tests.antt =====
-- The labels at sample keys.
use owl_sentry.Base.{◌≡◌, refl, nat_eq, list_eq, pair_eq}
use owl_sentry.Text.{codes}
use owl_sentry.I18n.{fr}
use owl_sentry.I18n.Labels.{tr}

tr_runs : tr fr (codes "alerts") ≡ codes "Alertes"
unfolding tr
tr_runs = refl
