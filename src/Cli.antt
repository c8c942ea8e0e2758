-- ===== src/Cli.antt =====
-- urfave/cli as the `main` functions of finality-gadget use it: the table of commands is data of the
-- program, and what becomes of a command line is up to the library.
use blitz.Base.{
  ℕ, String, Bool, false, ◌||◌, ◌==◌, string_eq, Option, none, some, List, [], ◌∷◌, client, ◌≡◌,
  All, if◌then◌else◌,
}
use blitz.Base.GoText.{has_prefix}
use blitz.Process.{Process, pure, raise}

-- What the program sets of a `cli.Command`, with subcommands that have none themselves, and of a
-- `cli.App`. `H` are the actions.
pub record Subcommand (H : Type 0) : Type 0 where
  pub name : String
  pub usage : String
  pub action : H

pub record Command (H : Type 0) : Type 0 where
  pub name : String
  pub aliases : List String
  pub usage : String
  pub subcommands : List (Subcommand H)

pub record CliApp (H : Type 0) : Type 0 where
  pub name : String
  pub usage : String
  pub description : String
  pub action : H
  pub commands : List (Command H)

-- What urfave/cli makes of a command line: an action on the words that are left, an error, or a
-- text that it prints itself.
pub data Route (H : Type 0) : Type 0 where
  calls : H → List String → Route H
  refuses : String → Route H
  prints : Route H

-- urfave/cli, with `Args().Get(n)`.
pub record Cli : Type 1 where
  pub route : (H : Type 0) → CliApp H → List String → Route H
  pub get : List String → ℕ → String

-- `app.Run(os.Args)`
unfoldable pub run_route :
    {S H : Type 0} → (H → List String → Process S (Unit {0})) → Route H → Process S (Unit {0})
run_route perform (calls action words) = perform action words
run_route perform (refuses message) = raise (client message)
run_route perform prints = pure tt

-- The first one with this word for a name or an alias.
abbrev pub is_named : String → List String → Bool
is_named word [] = false
is_named word (name ∷ names) = (word == name) || is_named word names

abbrev pub find_command : {H : Type 0} → String → List (Command H) → Option (Command H)
find_command word [] = none
find_command word (c ∷ cs) =
    if is_named word (c.name ∷ c.aliases) then some c else find_command word cs

abbrev pub find_subcommand : {H : Type 0} → String → List (Subcommand H) → Option (Subcommand H)
find_subcommand word [] = none
find_subcommand word (c ∷ cs) = if word == c.name then some c else find_subcommand word cs

-- A word that is no flag.
abbrev pub IsPlain : String → Type 0
IsPlain word = has_prefix word "-" ≡ false

-- What urfave/cli documents: the words behind the program's name choose a command, by its name or an
-- alias, and a subcommand, and its action gets the words that are left; without any, the action
-- of the app is called. A word that is left is read by its place.
pub record IsDocumented (cli : Cli) : Type 1 where
  pub chooses :
      (H : Type 0) (app : CliApp H) (program word sub : String) (rest : List String) (c : Command H)
      (s : Subcommand H)
      → find_command word app.commands ≡ some c
      → find_subcommand sub c.subcommands ≡ some s
      → All IsPlain rest
      → cli.route H app (program ∷ word ∷ sub ∷ rest) ≡ calls s.action rest
  pub alone :
      (H : Type 0) (app : CliApp H) (program : String)
      → cli.route H app (program ∷ []) ≡ calls app.action []
  pub first : (a : String) (rest : List String) → cli.get (a ∷ rest) 0 ≡ a
  pub second : (a b : String) (rest : List String) → cli.get (a ∷ b ∷ rest) 1 ≡ b
