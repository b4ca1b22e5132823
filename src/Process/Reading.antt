-- ===== src/Process/Reading.antt =====
-- crates/owlsentry-daemon/src/monitors/process.rs: what the monitor reads of a process. Where a
-- file of /proc cannot be read there is `none`. `String::from_utf8_lossy` is a parameter.
use owl_sentry.Base.{
  ℕ, Bool, Option, none, some, List, [], ◌∷◌, map, if◌then◌else◌, ◌>>=◌, any, insert_set, nat_eq,
  ◌==◌, list_eq, pair_eq,
}
use owl_sentry.Text.{Text, codes, strip_prefix, split_on, is_empty, trim}
use owl_sentry.Text.Lines.{lines}
use owl_sentry.Text.Numbers.{int_eq, parse_i32, ℤ}
use owl_sentry.FilePath.{component_eq, path_starts_with}

-- `split(|b| *b == 0)`: the variables of an environment
abbrev pub variables : List ℕ → List (List ℕ)
variables environ = split_on (λ b. b == 0) environ

-- The value of one variable, if it is LD_PRELOAD with a value that is not blank.
unfoldable pub preload_value : Text → Option Text
preload_value var = elim (strip_prefix (codes "LD_PRELOAD=") var) [
  | none ↦ none
  | some value ↦ if is_empty (trim value) then none else some (trim value)
]

unfoldable pub first_some : List (Option Text) → Option Text
first_some [] = none
first_some (none ∷ rest) = first_some rest
first_some (some v ∷ rest) = some v

unfoldable pub ld_preload_of : (List ℕ → Text) → List ℕ → Option Text
unfolding preload_value first_some
ld_preload_of from_utf8_lossy environ =
    first_some (map (λ var. preload_value (from_utf8_lossy var)) (variables environ))

-- `list_proc_pids`: the names of the entries of /proc, where they are UTF-8, that are numbers. Without
-- a listing there is none.
unfoldable pub pids_of : List (Option Text) → List ℤ
pids_of [] = []
pids_of (name ∷ names) = elim (name >>= parse_i32) [
  | none ↦ pids_of names
  | some pid ↦ insert_set pid (pids_of names)
]

unfoldable pub list_proc_pids : Option (List (Option Text)) → List ℤ
unfolding pids_of
list_proc_pids none = []
list_proc_pids (some names) = pids_of names

-- The first line of `PPid:` decides, whether or not it holds a number.
unfoldable pub ppid_in : List Text → Option ℤ
ppid_in [] = none
ppid_in (l ∷ ls) = elim (strip_prefix (codes "PPid:") l) [
  | none ↦ ppid_in ls
  | some rest ↦ parse_i32 (trim rest)
]

unfoldable pub ppid_of : Option Text → Option ℤ
unfolding lines ppid_in
ppid_of status = status >>= (λ s. ppid_in (lines s))

unfoldable pub read_comm : Option Text → Text
read_comm comm = elim comm [ none ↦ codes "?" | some s ↦ trim s ]

abbrev pub tmp_exec_prefixes : List Text
tmp_exec_prefixes = codes "/tmp" ∷ codes "/var/tmp" ∷ codes "/dev/shm" ∷ []

unfoldable pub is_tmp_exec : Text → Bool
is_tmp_exec exe = any (λ p. path_starts_with exe p) tmp_exec_prefixes
