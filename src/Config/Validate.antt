-- ===== src/Config/Validate.antt =====
-- crates/owlsentry-common/src/config.rs: `validate` and `load`. The reading of a file and of its
-- TOML, and the `Debug` form of a text, are parameters.
use mathlib.Core.Bool.{false≢true}
use mathlib.Core.Option.{none-ne-some}
use mathlib.Core.Path.{subst}
use owl_sentry.Base.{
  ◌<◌, ◌≡◌, refl, sym, ◌∙◌, ◌≢◌, ◌↔◌, inl, inr, Bool, true, ◌||◌, Option, none, some, List, [], ◌∷◌,
  map, arith, if◌then◌else◌, Bool-cases, Option-cases, All, nat_eq, ◌==◌, list_eq, pair_eq,
}
use owl_sentry.Text.{Text, codes, format}
use owl_sentry.FilePath.{component_eq, is_absolute}
use owl_sentry.Config.Types.{DaemonConfig, ConfigError, io, parse, invalid_config}

pub data Loaded (A : Type 0) : Type 0 where
  ok : A → Loaded A
  err : ConfigError → Loaded A

-- What `read_to_string` returns; a missing file is told apart.
pub data FileRead : Type 0 where
  contents : Text → FileRead
  not_found : FileRead
  unreadable : FileRead

-- The first relative one of the named paths
unfoldable pub find_relative : List (Text × Text) → Option (Text × Text)
find_relative [] = none
find_relative ((name, p) ∷ ps) =
    let rest = find_relative ps in if is_absolute p then rest else some (name, p)

abbrev pub named_paths : DaemonConfig → List (Text × Text)
named_paths c =
    (codes "general.log_dir", c.general.log_dir)
    ∷ (codes "general.socket_path", c.general.socket_path)
    ∷ (codes "general.rules_path", c.general.rules_path)
    ∷ (codes "audit.audit_log", c.audit.audit_log)
    ∷ []

abbrev pub watched : DaemonConfig → List (Text × Text)
watched c = map (λ p. (codes "filesystem.watch_paths", p)) c.filesystem.watch_paths

abbrev pub reject : {A : Type 0} → List Text → Loaded A
reject reason = err (invalid_config (format reason))

-- The tests on numbers, in their order
unfoldable pub validate_numbers : DaemonConfig → Loaded Unit
validate_numbers c =
    if c.general.recent_buffer == 0
    then reject (codes "general.recent_buffer doit être > 0" ∷ [])
    else if c.network.port_scan_threshold == 0
    then reject (codes "network.port_scan_threshold doit être > 0" ∷ [])
    else if c.network.poll_interval_secs == 0
        || c.process.scan_interval_secs == 0
        || c.audit.poll_interval_ms == 0
    then reject (codes "les intervalles de scrutation doivent être > 0" ∷ [])
    else ok tt

unfoldable pub validate_paths : DaemonConfig → Loaded Unit
validate_paths c = elim (find_relative (named_paths c)) [
  | some (name, p) ↦
      reject (name ∷ codes " doit être un chemin absolu (reçu: " ∷ p ∷ codes ")" ∷ [])
  | none ↦ elim (find_relative (watched c)) [
    | some (name, p) ↦ reject (codes "filesystem.watch_paths contient un chemin relatif: " ∷ p ∷ [])
    | none ↦ validate_numbers c
  ]
]

abbrev pub is_language : Text → Bool
is_language l = l == codes "fr" || l == codes "en"

module _ (debug_text : Text → Text) where
  unfoldable pub validate : DaemonConfig → Loaded Unit
  validate c =
      if is_language c.general.language
      then validate_paths c
      else reject (
          codes "general.language doit être \"fr\" ou \"en\" (reçu: "
          ∷ debug_text c.general.language
          ∷ codes ")"
          ∷ [])

  -- `cfg.validate()?; Ok(cfg)`
  unfoldable pub validated : DaemonConfig → Loaded Unit → Loaded DaemonConfig
  validated c (err e) = err e
  validated c (ok v) = ok c

  unfoldable pub load_parsed : Text → Option DaemonConfig → Loaded DaemonConfig
  unfolding validate validated
  load_parsed path none = err (parse path)
  load_parsed path (some c) = validated c (validate c)

  unfoldable pub load_read : (Text → Option DaemonConfig) → Text → FileRead → Loaded DaemonConfig
  unfolding load_parsed
  load_read from_str path not_found = err (io path)
  load_read from_str path unreadable = err (io path)
  load_read from_str path (contents raw) = load_parsed path (from_str raw)

  unfoldable pub load :
      (read_to_string : Text → FileRead) (from_str : Text → Option DaemonConfig) (path : Text)
      → Loaded DaemonConfig
  unfolding load_read
  load read_to_string from_str path = load_read from_str path (read_to_string path)

abbrev pub Positive : DaemonConfig → Type 0
Positive c =
    (0 < c.general.recent_buffer)
    × (0 < c.network.port_scan_threshold)
    × (0 < c.network.poll_interval_secs)
    × (0 < c.process.scan_interval_secs)
    × (0 < c.audit.poll_interval_ms)

-- A configuration in order: a language that is known, absolute paths, and no zero where the daemon
-- divides its time or keeps its alerts.
abbrev pub IsValid : DaemonConfig → Type 0
IsValid c =
    (is_language c.general.language ≡ true)
    × All (λ n. is_absolute n.1 ≡ true) (named_paths c)
    × All (λ n. is_absolute n.1 ≡ true) (watched c)
    × Positive c

find_relative_iff :
    (ps : List (Text × Text)) → (find_relative ps ≡ none) ↔ All (λ n. is_absolute n.1 ≡ true) ps
unfolding find_relative
find_relative_iff [] = (λ h. tt, λ h. refl)
find_relative_iff ((name, p) ∷ ps) = ground (arith, find_relative_iff ps)

validate_numbers_iff : (c : DaemonConfig) → (validate_numbers c ≡ ok tt) ↔ Positive c
unfolding validate_numbers
validate_numbers_iff c = ground arith

err_ne_ok : (e : ConfigError) (l : Loaded Unit) → l ≡ err e → l ≢ ok tt
err_ne_ok e l h k = cc

abbrev Absolute : List (Text × Text) → Type 0
Absolute ps = All (λ n. is_absolute n.1 ≡ true) ps

some_relative :
    (ps : List (Text × Text)) (q : Text × Text) → find_relative ps ≡ some q → ¬ Absolute ps
some_relative ps q h k = none-ne-some _ (sym ((find_relative_iff ps).1 k) ∙ h)

validate_paths_iff :
    (c : DaemonConfig)
    → (validate_paths c ≡ ok tt) ↔ (Absolute (named_paths c) × Absolute (watched c) × Positive c)
unfolding validate_paths
validate_paths_iff c = elim (Option-cases (find_relative (named_paths c))) [
  | inl n ↦ elim (Option-cases (find_relative (watched c))) [
    | inl w ↦
        rw (validate_paths, n, w)
          (
            (λ h. (
              (find_relative_iff (named_paths c)).0 n,
              (find_relative_iff (watched c)).0 w,
              (validate_numbers_iff c).0 h,
            )),
            (λ h. (validate_numbers_iff c).1 h.2),
          )
    | inr (q, w) ↦
        rw (validate_paths, n, w)
          ((λ h. absurd (err_ne_ok _ _ refl h)), (λ h. absurd (some_relative (watched c) q w h.1)))
  ]
  | inr (q, n) ↦
      rw (validate_paths, n)
        (
          (λ h. absurd (err_ne_ok _ _ refl h)),
          (λ h. absurd (some_relative (named_paths c) q n h.0)),
        )
]

-- `validate` accepts exactly the configurations with a known language, absolute paths, a buffer and
-- a threshold that are not 0, and intervals that are not 0.
pub validate_iff :
    (debug_text : Text → Text) (c : DaemonConfig) → (validate debug_text c ≡ ok tt) ↔ IsValid c
unfolding validate
validate_iff debug_text c = elim (Bool-cases (is_language c.general.language)) [
  | inl l ↦
      let v = validate_paths_iff c in
      rw (validate, l) ((λ h. let k = v.0 h in (refl, k.0, k.1, k.2)), (λ h. v.1 (h.1, h.2, h.3)))
  | inr l ↦ rw (validate, l) ((λ h. absurd (err_ne_ok _ _ refl h)), (λ h. absurd (false≢true h.0)))
]

pub ok-injective : (c d : DaemonConfig) → ok c ≡ ok d → c ≡ d
ok-injective c d h = cc

validated-IsValid :
    (debug_text : Text → Text) (c d : DaemonConfig) (v : Loaded Unit)
    → validate debug_text c ≡ v
    → validated debug_text c v ≡ ok d
    → IsValid d
unfolding validated
validated-IsValid debug_text c d (err e) h k = absurd (ground arith)
validated-IsValid debug_text c d (ok tt) h k =
    subst IsValid (ok-injective c d k) ((validate_iff debug_text c).0 h)

load_parsed-IsValid :
    (debug_text : Text → Text) (path : Text) (o : Option DaemonConfig) (c : DaemonConfig)
    → load_parsed debug_text path o ≡ ok c
    → IsValid c
unfolding load_parsed
load_parsed-IsValid debug_text path none c h = absurd (ground arith)
load_parsed-IsValid debug_text path (some d) c h = validated-IsValid debug_text d c _ refl h

load_read-IsValid :
    (debug_text : Text → Text) (from_str : Text → Option DaemonConfig) (path : Text) (r : FileRead)
    (c : DaemonConfig)
    → load_read debug_text from_str path r ≡ ok c
    → IsValid c
unfolding load_read
load_read-IsValid debug_text from_str path not_found c h = absurd (ground arith)
load_read-IsValid debug_text from_str path unreadable c h = absurd (ground arith)
load_read-IsValid debug_text from_str path (contents raw) c h =
    load_parsed-IsValid debug_text path (from_str raw) c h

-- A configuration that `load` returns is in order, whatever the file holds.
pub load-IsValid :
    (debug_text : Text → Text) (read_to_string : Text → FileRead)
    (from_str : Text → Option DaemonConfig) (path : Text) (c : DaemonConfig)
    → load debug_text read_to_string from_str path ≡ ok c
    → IsValid c
unfolding load
load-IsValid debug_text read_to_string from_str path c h =
    load_read-IsValid debug_text from_str path (read_to_string path) c h
