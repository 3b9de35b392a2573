-- ===== src/Credentials.antt =====
-- The changes of credentials in services/api/credentials.py: the passwords of the console and of
-- Grafana are changed together with their private files, and put back when a step fails. The texts
-- of the errors, which name the stage, are left out.
pub mod Account
pub mod Rotate
pub mod Before
pub mod Steps
pub mod Undo
pub mod Honest
pub mod Outcomes
pub mod Preflight
pub mod Promise
pub mod Written
use android_farm.Prelude.{
  ℕ, leb, ltb, ◌==◌, Text, codes, text_eq, Bool, true, false, not, ◌&&◌, ◌||◌, List, [], ◌∷◌, ◌++◌,
  map, all, any, Option, none, some, if◌then◌else◌, Result, ok, err, runtime_error, os_error,
  raise_if, ◌≡◌,
}
use android_farm.Prelude.Dict.{Dict, lookup, insert, remove}

pub data Target : Type 0 where
  web grafana platform : Target

-- a private file with what it held and what it is to hold
pub record Change : Type 0 where
  pub path : Text
  pub before : Option Text
  pub after : Text

-- what Grafana says of the account that asks; 0 for an id that is no positive number
pub record Profile : Type 0 where
  pub id : ℕ
  pub login : Text
  pub is_admin : Bool

-- Grafana's HTTP interface and the container that copies secrets, with their state; a request that
-- fails may have been carried out
pub record Services (S : Type 0) : Type 0 where
  pub get : Text → Text → S → Result Profile
  pub put_password : Text → Text → Text → S → Result (Unit {0}) × S
  pub put_login : Profile → Text → Text → Text → S → Result (Unit {0}) × S
  pub start : Text → Dict Text → S → Result (Unit {0}) × S
  -- the login and the password of an account
  pub account : ℕ → S → Option (Text × Text)
  -- a profile is given only to its account, and only for the password of the account
  pub get-account :
      (user password : Text) (s : S) (profile : Profile)
      → get user password s ≡ ok profile
      → account profile.id s ≡ some (profile.login, password)
  -- the container copies files and changes no account
  pub start-account :
      (id : ℕ) (plan : Text) (files : Dict Text) (s : S)
      → account id (start plan files s).1 ≡ account id s

-- the files, whether each of the next accesses to a file fails, and the services
pub record World (S : Type 0) : Type 0 where
  pub files : Dict Text
  pub failing : List Bool
  pub services : S

-- what the preflight found: the contents to be written and the container that copies them
pub record WebPlan : Type 0 where
  pub writes : List (Text × Text)
  pub plan : Text
  pub revision : Text

pub record GrafanaPlan : Type 0 where
  pub old_user : Text
  pub old_password : Text
  pub writes : List (Text × Text)
  pub plan : Text

pub record Web : Type 0 where
  pub changes : List Change
  pub plan : Text
  pub revision : Text

pub record Grafana : Type 0 where
  pub profile : Profile
  pub old_user : Text
  pub old_password : Text
  pub username : Text
  pub password : Text
  pub changes : List Change
  pub plan : Text

-- how `rotate` ends: with its result; with an error before any change; with the error that says that
-- all was put back; with the error that asks for a review, after the recovery file; or with the error
-- of that file
pub data Outcome : Type 0 where
  completed refused restored review unrecorded : Outcome

-- the lines of a text, with the separators of `str.splitlines`
abbrev is_break : ℕ → Bool
is_break c = leb 10 c && leb c 13 || leb 28 c && leb c 30 || c == 133 || leb 8232 c && leb c 8233

unfoldable pub split_lines : Bool → Text → Text → List Text
split_lines after_return [] [] = []
split_lines after_return (c ∷ line) [] = (c ∷ line) ∷ []
split_lines after_return line (c ∷ s) =
    let next = split_lines (c == 13) [] s in
    let same = split_lines false (line ++ c ∷ []) s in
    if after_return && c == 10 then next else if is_break c then line ∷ next else same

unfoldable pub starts_with : Text → Text → Bool
starts_with [] s = true
starts_with (c ∷ p) [] = false
starts_with (c ∷ p) (d ∷ s) = c == d && starts_with p s

unfoldable pub without_key : Text → List Text → List Text
without_key key [] = []
without_key key (line ∷ lines) =
    let rest = without_key key lines in
    if starts_with (key ++ b'=' ∷ []) line then rest else line ∷ rest

unfoldable pub join_lines : List Text → Text
join_lines [] = []
join_lines (line ∷ lines) = line ++ 10 ∷ join_lines lines

-- one setting in the text of an environment file
unfoldable pub set_variable : Text → Text → Text → Text
set_variable key value content =
    join_lines (without_key key (split_lines false [] content) ++ (key ++ b'=' ∷ value) ∷ [])

unfoldable pub reversed {ℓ} : {A : Type ℓ} → List A → List A
reversed [] = []
reversed (a ∷ rest) = reversed rest ++ a ∷ []

-- what a file is to hold
unfoldable pub value_of : Bool → Change → Option Text
value_of true c = c.before
value_of false c = some c.after

-- `read_bytes` of a file that may be missing
unfoldable pub read_changes : Dict Text → List (Text × Text) → List Change
read_changes files [] = []
read_changes files ((path, content) ∷ rest) =
    (record { path = path; before = lookup path files; after = content }) ∷ read_changes files rest

-- the files of the environment
abbrev pub environment_names : List Text
environment_names = codes "/compose.env" ∷ codes "/coolify.env" ∷ []

module _ {S : Type 0} where
  -- the rest of a block, which an error skips
  unfoldable pub continue {ℓ κ} :
      {A : Type ℓ} {B : Type κ}
      → Result A × World S
      → (A → World S → Result B × World S)
      → Result B × World S
  continue (err e, w) rest = (err e, w)
  continue (ok a, w) rest = rest a w

  unfoldable pub access_from : List Bool → World S → Result (Unit {0}) × World S
  access_from [] w = (ok tt, w)
  access_from (false ∷ more) w = (ok tt, record w { failing = more })
  access_from (true ∷ more) w = (err (os_error "file access failed"), record w { failing = more })

  -- an access to a file, by its own checks or by the system
  unfoldable pub access : World S → Result (Unit {0}) × World S
  unfolding access_from
  access w = access_from w.failing w

  unfoldable pub set_file : Text → Option Text → World S → World S
  set_file path none w = record w { files = remove path w.files }
  set_file path (some content) w = record w { files = insert path content w.files }

  -- `_write`, or `unlink` without a content: a file is replaced as a whole or left as it was
  unfoldable pub write : Text → Option Text → World S → Result (Unit {0}) × World S
  unfolding access set_file continue
  write path value w = continue (access w) (λ _ v. (ok tt, set_file path value v))

  unfoldable pub apply_each : Bool → List Change → World S → Result (Unit {0}) × World S
  unfolding write
  apply_each rollback [] w = (ok tt, w)
  apply_each rollback (c ∷ cs) w =
      continue (write c.path (value_of rollback c) w) (λ _ v. apply_each rollback cs v)

  -- `_apply_files`
  unfoldable pub apply_files : Bool → List Change → World S → Result (Unit {0}) × World S
  unfolding apply_each
  apply_files rollback changes w =
      apply_each rollback (if rollback then reversed changes else changes) w

  -- `_environment_changes` of one setting: a file that is missing is passed over
  unfoldable pub with_change :
      Text
      → Text
      → Text
      → Option Text
      → (World S → Result (List Change) × World S)
      → World S
      → Result (List Change) × World S
  unfolding continue access
  with_change path key value none rest w = rest w
  with_change path key value (some content) rest w = continue (access w) (λ _ v.
      continue (rest v) (λ changes u. (
        ok (
            (record { path = path; before = some content; after = set_variable key value content })
            ∷ changes),
        u,
      )))

  unfoldable pub environment_from :
      Text → Text → Text → List Text → World S → Result (List Change) × World S
  unfolding with_change
  environment_from config_dir key value [] w = (ok [], w)
  environment_from config_dir key value (name ∷ names) w =
      with_change (config_dir ++ name) key value (lookup (config_dir ++ name) w.files)
        (environment_from config_dir key value names) w

  unfoldable pub environment_changes : Text → Text → Text → World S → Result (List Change) × World S
  unfolding environment_from
  environment_changes config_dir key value w =
      environment_from config_dir key value environment_names w
