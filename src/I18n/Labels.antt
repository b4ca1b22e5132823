-- ===== src/I18n/Labels.antt =====
-- crates/owlsentry-common/src/i18n.rs: `tr`, the labels of the window. The arms of its `match` stand
-- in a table, in their order.
use Prim.Native.String.{String}
use mathlib.Core.Bool.{false≢true}
use owl_sentry.Base.{
  ◌≡◌, refl, sym, ◌∙◌, ◌≢◌, ◌↔◌, ◌⊎◌, inl, inr, Bool, true, false, not, ◌&&◌, Option, none, some,
  List, [], ◌∷◌, ◌++◌, map, arith, if◌then◌else◌, Bool-cases, all, nat_eq, ◌==◌, list_beq_iff,
  list_eq, pair_eq, contains,
}
use owl_sentry.Text.{Text, codes}
use owl_sentry.I18n.{Lang, fr, en}

-- An arm of the `match`: the key, and the text of either branch of `if fr`.
pub record Label : Type 0 where
  pub key : Text
  pub french : Text
  pub english : Text

abbrev arm : String → String → String → Label
arm k f e = record { key = codes k; french = codes f; english = codes e }

-- The arms for the bars and the list,
unfoldable pub bar_labels : List Label
bar_labels =
    arm "app_title" "OwlSentry — Détection d'intrusion" "OwlSentry — Intrusion Detection"
    ∷ arm "alerts" "Alertes" "Alerts"
    ∷ arm "dashboard" "Tableau de bord" "Dashboard"
    ∷ arm "connected" "Connecté au démon" "Connected to daemon"
    ∷ arm "disconnected" "Démon injoignable — reconnexion…" "Daemon unreachable — reconnecting…"
    ∷ arm "severity" "Gravité" "Severity"
    ∷ arm "min_severity" "Gravité min." "Min severity"
    ∷ arm "category" "Catégorie" "Category"
    ∷ arm "all" "Toutes" "All"
    ∷ arm "search" "Recherche" "Search"
    ∷ arm "time" "Heure" "Time"
    ∷ arm "title" "Titre" "Title"
    ∷ []

-- and those for the details and the dashboard.
unfoldable pub detail_labels : List Label
detail_labels =
    arm "what" "Quoi" "What"
    ∷ arm "why" "Pourquoi" "Why"
    ∷ arm "how" "Comment (actions recommandées)" "How (recommended actions)"
    ∷ arm "details" "Détails" "Details"
    ∷ arm "metadata" "Métadonnées" "Metadata"
    ∷ arm "no_alert_selected" "Sélectionnez une alerte pour voir les détails."
        "Select an alert to see details."
    ∷ arm "notifications" "Notifications bureau" "Desktop notifications"
    ∷ arm "language" "Langue" "Language"
    ∷ arm "total_alerts" "Alertes au total" "Total alerts"
    ∷ arm "alerts_last_24h" "Alertes par heure (24 h)" "Alerts per hour (24 h)"
    ∷ arm "by_severity" "Par gravité" "By severity"
    ∷ arm "by_category" "Par catégorie" "By category"
    ∷ arm "clear" "Effacer" "Clear"
    ∷ []

unfoldable pub labels : List Label
unfolding bar_labels detail_labels
labels = bar_labels ++ detail_labels

unfoldable pub find_label : Text → List Label → Option Label
find_label k [] = none
find_label k (l ∷ ls) = let rest = find_label k ls in if k == l.key then some l else rest

abbrev pub text_of : Lang → Label → Text
text_of fr l = l.french
text_of en l = l.english

-- `tr`: a key without an arm is returned as it is.
unfoldable pub tr : Lang → Text → Text
unfolding find_label labels
tr lang k = elim (find_label k labels) [ none ↦ k | some l ↦ text_of lang l ]

-- A label that differs from its key in either language.
differs : Label → Bool
differs l = not (l.french == l.key) && not (l.english == l.key)

labels_differ : all differs labels ≡ true
unfolding labels differs
labels_differ = refl

abbrev pub has_key : Text → List Label → Bool
has_key k ls = contains k (map (λ (l : Label). l.key) ls)

-- A key has no label and none is found, or what is found differs from the key.
find_label-cases :
    (k : Text) (ls : List Label)
    → all differs ls ≡ true
    → ((find_label k ls ≡ none) × (has_key k ls ≡ false))
      ⊎ ((l : Label) × (find_label k ls ≡ some l)
          × (has_key k ls ≡ true)
          × (k ≡ l.key)
          × (differs l ≡ true))
unfolding find_label
find_label-cases k [] h = inl (refl, refl)
find_label-cases k (l ∷ ls) h = elim (Bool-cases (k == l.key)) [
  | inl e ↦ inr (l, rw (find_label, e) refl, rw e refl, (list_beq_iff k l.key).0 e, ground arith)
  | inr e ↦ elim (find_label-cases k ls (ground arith)) [
    | inl (n, c) ↦ inl (rw (find_label, e, n) refl, rw (e, c) refl)
    | inr (l', f, c, same, d) ↦ inr (l', rw (find_label, e, f) refl, rw (e, c) refl, same, d)
  ]
]

text_of-differs : (lang : Lang) (l : Label) → differs l ≡ true → text_of lang l ≢ l.key
unfolding differs
text_of-differs fr l h e = absurd (ground (arith, list_beq_iff l.french l.key))
text_of-differs en l h e = absurd (ground (arith, list_beq_iff l.english l.key))

-- In both languages, `tr` returns a key as it is exactly if the key has no label.
pub tr_iff : (lang : Lang) (k : Text) → (tr lang k ≡ k) ↔ (has_key k labels ≡ false)
unfolding tr
tr_iff lang k = elim (find_label-cases k labels labels_differ) [
  | inl (n, c) ↦ (λ h. c, λ h. rw (tr, n) refl)
  | inr (l, f, c, same, d) ↦ (
    λ h.
        let t : tr lang k ≡ text_of lang l = rw (tr, f) refl in
        absurd (text_of-differs lang l d (sym t ∙ (h ∙ same))),
    λ h. absurd (false≢true (sym h ∙ c)),
  )
]
