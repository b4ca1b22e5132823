-- ===== src/FilePath.antt =====
-- What the sources use of `std::path`. A path is its text, which is valid UTF-8; it is compared by
-- its components.
use owl_sentry.Base.{
  ℕ, ◌≡◌, refl, ◌↔◌, Bool, true, false, ◌&&◌, ◌||◌, Option, none, some, List, [], ◌∷◌, arith,
  if◌then◌else◌, ◌>>=◌, any, ◌==◌, nat_eq, list_beq_iff, list_eq, pair_eq, eq_refl, Eq,
}
use owl_sentry.Text.{Text, text_beq, codes, split_on, is_empty, after_last}

pub data Component : Type 0 where
  root_dir : Component
  cur_dir : Component
  parent_dir : Component
  normal : Text → Component

abbrev pub component_beq : Component → Component → Bool
component_beq root_dir root_dir = true
component_beq cur_dir cur_dir = true
component_beq parent_dir parent_dir = true
component_beq (normal a) (normal b) = text_beq a b
component_beq _ _ = false

pub component_beq_iff : (a b : Component) → (component_beq a b ≡ true) ↔ (a ≡ b)
component_beq_iff (normal a) (normal b) = ground (arith, list_beq_iff a b)
component_beq_iff root_dir root_dir = ground arith
component_beq_iff cur_dir cur_dir = ground arith
component_beq_iff parent_dir parent_dir = ground arith
component_beq_iff _ _ = ground arith

instance abbrev pub component_eq : Eq Component
component_eq = record { beq = component_beq; beq_iff = component_beq_iff }

abbrev is_slash : ℕ → Bool
is_slash c = c == b'/'

-- The components of the pieces between slashes, of which the empty ones and `.` stand for nothing.
normal_components : List Text → List Component
normal_components [] = []
normal_components (w ∷ ws) =
    if is_empty w || text_beq w (codes ".")
    then normal_components ws
    else (if text_beq w (codes "..") then parent_dir else normal w) ∷ normal_components ws

-- A relative path may begin with the current directory.
relative_components : List Text → List Component
unfolding normal_components
relative_components [] = []
relative_components (w ∷ ws) =
    if text_beq w (codes ".") then cur_dir ∷ normal_components ws else normal_components (w ∷ ws)

-- `Path::is_absolute`
unfoldable pub is_absolute : Text → Bool
is_absolute [] = false
is_absolute (c ∷ cs) = is_slash c

-- `Path::components`
unfoldable pub components : Text → List Component
unfolding relative_components is_absolute
components s =
    if is_absolute s
    then root_dir ∷ normal_components (split_on is_slash s)
    else relative_components (split_on is_slash s)

unfoldable pub is_prefix : List Component → List Component → Bool
is_prefix [] ys = true
is_prefix (x ∷ xs) [] = false
is_prefix (x ∷ xs) (y ∷ ys) = x == y && is_prefix xs ys

-- `Path::starts_with`: the components of the prefix come first.
unfoldable pub path_starts_with : Text → Text → Bool
path_starts_with path prefix = is_prefix (components prefix) (components path)

last_name : List Component → Option Text
last_name [] = none
last_name (normal w ∷ []) = some w
last_name (c ∷ []) = none
last_name (c ∷ d ∷ cs) = last_name (d ∷ cs)

-- `Path::file_name`
unfoldable pub file_name : Text → Option Text
unfolding last_name components
file_name path = last_name (components path)

-- The text behind the last dot of a name, unless the dot is missing or the first character.
extension_of : Text → Option Text
extension_of [] = none
extension_of (c ∷ cs) = if any (λ d. d == b'.') cs then some (after_last b'.' cs) else none

-- `Path::extension`
unfoldable pub extension : Text → Option Text
unfolding extension_of file_name
extension path = file_name path >>= extension_of

pub is_prefix_refl : (xs : List Component) → is_prefix xs xs ≡ true
unfolding is_prefix
is_prefix_refl [] = refl
is_prefix_refl (x ∷ xs) = rw (eq_refl x, is_prefix_refl xs)
