-- ===== src/Graph/Noise.antt =====
-- `FilterNoiseFiles` of internal/types/noise_files.go: which changed files say nothing about a conflict.
use Prim.Native.Char.{code}
use pratc.Base.{
  String, Bool, true, false, not, ◌&&◌, ◌||◌, ◌≡◌, refl, List, [], ◌∷◌, ◌==◌, str_eq, str_elem,
  if◌then◌else◌,
}

abbrev conflict_noise_files : List String
conflict_noise_files =
    "package.json" ∷ "pnpm-lock.yaml" ∷ "yarn.lock" ∷ "package-lock.json" ∷ "bun.lockb" ∷ "go.mod"
    ∷ "go.sum" ∷ "Cargo.toml" ∷ "Cargo.lock" ∷ "pyproject.toml" ∷ "setup.py" ∷ "requirements.txt"
    ∷ "Makefile" ∷ "Dockerfile" ∷ ".gitignore" ∷ ".editorconfig" ∷ ".eslintrc" ∷ ".eslintrc.json"
    ∷ ".prettierrc" ∷ ".prettierrc.json" ∷ "tsconfig.json" ∷ "tsconfig.base.json"
    ∷ "vitest.config.ts" ∷ "jest.config.ts" ∷ "CHANGELOG.md" ∷ "README.md" ∷ "LICENSE" ∷ []

abbrev conflict_noise_extensions : List String
conflict_noise_extensions = ".lock" ∷ ".lockb" ∷ ".lock.json" ∷ []

abbrev conflict_noise_path_prefixes : List String
conflict_noise_path_prefixes = "docs/.generated/" ∷ []

abbrev conflict_noise_path_exact : List String
conflict_noise_path_exact = "docs/docs.json" ∷ []

abbrev conflict_noise_path_suffixes : List String
conflict_noise_path_suffixes =
    "/schema.base.generated.ts" ∷ "/schema.help.ts" ∷ "/schema.labels.ts" ∷ []

-- `strings.HasPrefix`, `strings.HasSuffix` and `strings.Contains`.
unfoldable starts_with : String → String → Bool
starts_with s String.[] = true
starts_with String.[] (String.◌∷◌ d p) = false
starts_with (String.◌∷◌ c s) (String.◌∷◌ d p) = (code c == code d) && starts_with s p

unfoldable ends_with : String → String → Bool
ends_with String.[] p = str_eq String.[] p
ends_with (String.◌∷◌ c s) p = str_eq (String.◌∷◌ c s) p || ends_with s p

unfoldable has_part : String → String → Bool
unfolding starts_with
has_part String.[] p = starts_with String.[] p
has_part (String.◌∷◌ c s) p = starts_with (String.◌∷◌ c s) p || has_part s p

-- The text after the last slash, or the whole.
unfoldable base_name : String → String
unfolding has_part
base_name String.[] = String.[]
base_name (String.◌∷◌ c s) =
    let rest = base_name s in
    if has_part s "/" then rest else if code c == 47 then s else String.◌∷◌ c s

unfoldable any_of : (String → Bool) → List String → Bool
any_of test [] = false
any_of test (s ∷ ss) = test s || any_of test ss

-- The body of the loop: whether the file is skipped.
unfoldable pub is_noise : String → Bool
unfolding base_name any_of starts_with ends_with has_part str_elem
is_noise f =
    str_elem (base_name f) conflict_noise_files
    || str_elem f conflict_noise_files
    || str_elem f conflict_noise_path_exact
    || any_of (starts_with f) conflict_noise_path_prefixes
    || any_of (ends_with f) conflict_noise_path_suffixes
    || any_of (ends_with f) conflict_noise_extensions
    || (starts_with f ".github/" && not (has_part f "/src/") && not (has_part f "/actions/"))

-- `FilterNoiseFiles`.
unfoldable pub filter_noise_files : List String → List String
filter_noise_files [] = []
filter_noise_files (f ∷ files) =
    let rest = filter_noise_files files in if is_noise f then rest else f ∷ rest

lock_files :
    filter_noise_files ("web/yarn.lock" ∷ "a/b.go" ∷ ".github/ci.yml" ∷ ".github/actions/x" ∷ [])
    ≡ "a/b.go" ∷ ".github/actions/x" ∷ []
unfolding filter_noise_files is_noise
lock_files = refl
