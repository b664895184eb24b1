-- ===== src/Cli.antt =====
-- cli/cli.h: what the client's command line makes the program do. The option parser of Boost is the
-- parameter `parse_command_line`, and the reading of a file by the TOML library is `load`; printing, and
-- the loop that `run_client` enters, are ends of the run here.
pub mod Starts
use ncx_for_mall.Prelude.{
  ℕ, suc, List, [], ◌∷◌, Option, none, some, Bool, true, false, if◌then◌else◌, codes,
}
use ncx_for_mall.Prelude.Maps.{lookup, text_eq}
use ncx_for_mall.Address.{Inet}
use ncx_for_mall.Exceptions.{Text, Reason, Try, value, throws, exits, crashes, is_some}
use ncx_for_mall.Model.{Json}
use ncx_for_mall.Config.{Toml, CControlChannelArgs, parse_local_config}
use ncx_for_mall.Config.Remote.{Surroundings, parse_remote_config}
use ncx_for_mall.Client.Startup.{NClient, new_nclient}

-- How `parse` ends: after printing, with a client that runs, by `exit(1)` of the configuration, by one
-- of the `runtime_error`s of this file, or through a null pointer.
pub data Ending : Type 0 where
  help_printed version_printed : Ending
  runs : NClient → Ending
  exits_with initialization_failed : Reason → Ending
  load_failed : Text → Ending
  command_line_error no_command null_pointer : Ending

-- What surrounds the program: the parsed options with their values, where the command line is one that
-- Boost accepts, the node of a file, where it can be read and parsed, and the ids that are drawn.
pub record Shell (t : Toml) : Type 0 where
  pub parse_command_line : List Text → Option (List (Text × Text))
  pub load : Text → Option t.Node
  pub ids : ℕ → Text

-- An id for each service, in order.
abbrev pub with_ids : (ℕ → Text) → ℕ → List CControlChannelArgs → List (Text × CControlChannelArgs)
with_ids ids k [] = []
with_ids ids k (args ∷ rest) = (ids k, args) ∷ with_ids ids (suc k) rest

module _ (n : Inet) (t : Toml) (j : Json) (env : Surroundings) (sh : Shell t) where
  -- `std::make_unique<NClient>(args)` and `run_client`, in the `try` of both handlers.
  unfoldable pub start_client : Try (List CControlChannelArgs) → Ending
  start_client (value args) = runs (new_nclient (with_ids sh.ids 0 args))
  start_client (throws r) = initialization_failed r
  start_client (exits r) = exits_with r
  start_client crashes = null_pointer

  unfoldable pub handle_local_config : Text → Ending
  unfolding start_client
  handle_local_config local_file = elim (sh.load local_file) [
    | none ↦ load_failed local_file
    | some config ↦ start_client (parse_local_config n t config)
  ]

  unfoldable pub handle_remote_tunnel : Text → Ending
  unfolding start_client
  handle_remote_tunnel remote_config_file = elim (sh.load remote_config_file) [
    | none ↦ load_failed remote_config_file
    | some config ↦ start_client (parse_remote_config n t j env config)
  ]

  -- The chain of `vm.count`s, with `vm[…].as<std::string>()`.
  unfoldable pub run_command : List (Text × Text) → Ending
  unfolding handle_local_config handle_remote_tunnel
  run_command vm =
      if is_some (lookup (codes "help") vm)
      then help_printed
      else if is_some (lookup (codes "version") vm)
      then version_printed
      else elim (lookup (codes "local") vm) [
        | some local_file ↦ handle_local_config local_file
        | none ↦ elim (lookup (codes "remote") vm) [
          | some remote_config_file ↦ handle_remote_tunnel remote_config_file
          | none ↦ no_command
        ]
      ]

  -- `Cli::parse`
  unfoldable pub parse_cli : List Text → Ending
  unfolding run_command
  parse_cli argv = elim (sh.parse_command_line argv) [
    | none ↦ command_line_error
    | some vm ↦ run_command vm
  ]
