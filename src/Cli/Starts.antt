-- ===== src/Cli/Starts.antt =====
-- cli/cli.h with util/config.h: why a run of the client's command line ends as it does.
use ncx_for_mall.Prelude.{
  ◌≡◌, refl, ap, ◌⊎◌, inl, inr, List, Option, none, some, true, codes, Option-cases, Bool-cases,
}
use ncx_for_mall.Prelude.Maps.{lookup, text_eq}
use ncx_for_mall.Address.{Inet}
use ncx_for_mall.Exceptions.{Text, Try, value, throws, exits, crashes, is_some}
use ncx_for_mall.Exceptions.Rules.{Loads}
use ncx_for_mall.Model.{Json, JsonLaws}
use ncx_for_mall.Config.{Toml, TomlLaws, CControlChannelArgs, parse_local_config}
use ncx_for_mall.Config.Parsed.{described_client_file, parse_local_config-Loads}
use ncx_for_mall.Config.Remote.{
  Surroundings, parse_remote_config, described_remote_file, parse_remote_config-Loads,
}
use ncx_for_mall.Client.Startup.{new_nclient}
use ncx_for_mall.Cli.{
  Ending, help_printed, version_printed, runs, exits_with, initialization_failed, load_failed,
  command_line_error, no_command, null_pointer, Shell, with_ids, start_client, handle_local_config,
  handle_remote_tunnel, run_command, parse_cli,
}

module _ (n : Inet) (t : Toml) (j : Json) (env : Surroundings) (sh : Shell t) where
  -- The options name this file, as a local or as a remote one, and it can be read and describes this.
  pub data Describes (vm : List (Text × Text)) (file : Text)
      : Option (List CControlChannelArgs) → Type 0 where
    by_local :
        (config : t.Node)
        → lookup (codes "local") vm ≡ some file
        → sh.load file ≡ some config
        → Describes vm file (described_client_file n t config)
    by_remote :
        (config : t.Node)
        → lookup (codes "remote") vm ≡ some file
        → sh.load file ≡ some config
        → Describes vm file (described_remote_file n t j env config)

  -- Why these options end so.
  abbrev pub HasReason : List (Text × Text) → Ending → Type 0
  HasReason vm help_printed = is_some (lookup (codes "help") vm) ≡ true
  HasReason vm version_printed = is_some (lookup (codes "version") vm) ≡ true
  HasReason vm (runs client) =
      (file : Text) × (args : List CControlChannelArgs) × Describes vm file (some args)
      × (client ≡ new_nclient (with_ids sh.ids 0 args))
  HasReason vm (exits_with r) = (file : Text) × Describes vm file none
  HasReason vm (initialization_failed r) = ⊥
  HasReason vm (load_failed file) =
      ((lookup (codes "local") vm ≡ some file) ⊎ (lookup (codes "remote") vm ≡ some file))
      × (sh.load file ≡ none)
  HasReason vm command_line_error = ⊥
  HasReason vm no_command = (lookup (codes "local") vm ≡ none) × (lookup (codes "remote") vm ≡ none)
  HasReason vm null_pointer = ⊥

  -- The same for a command line: one that is refused ends by its own error, and no other one does.
  abbrev pub IsExplained : Option (List (Text × Text)) → Ending → Type 0
  IsExplained none ending = ending ≡ command_line_error
  IsExplained (some vm) ending = HasReason vm ending

  started-HasReason :
      (vm : List (Text × Text)) (file : Text) (r : Try (List CControlChannelArgs))
      (o : Option (List CControlChannelArgs))
      → Describes vm file o
      → Loads r o
      → HasReason vm (start_client n t j env sh r)
  unfolding start_client
  started-HasReason vm file (value args) (some args') d h =
      (file, args', d, ap (λ x. new_nclient (with_ids sh.ids 0 x)) h)
  started-HasReason vm file (value args) none d h = absurd h
  started-HasReason vm file (throws r) o d h = absurd h
  started-HasReason vm file (exits r) (some args') d h = absurd h
  started-HasReason vm file (exits r) none d h = (file, d)
  started-HasReason vm file crashes o d h = absurd h

  -- A file that is read or not, and the parser that `start_client` gets the result of.
  file-HasReason :
      (vm : List (Text × Text)) (file : Text) (parses : t.Node → Try (List CControlChannelArgs))
      (describes : t.Node → Option (List CControlChannelArgs))
      → ((config : t.Node) → Loads (parses config) (describes config))
      → ((config : t.Node) → sh.load file ≡ some config → Describes vm file (describes config))
      → (lookup (codes "local") vm ≡ some file) ⊎ (lookup (codes "remote") vm ≡ some file)
      → (loaded : Option t.Node) → sh.load file ≡ loaded
      → HasReason vm (elim loaded [
        | none ↦ load_failed file
        | some config ↦ start_client n t j env sh (parses config)
      ])
  file-HasReason vm file parses describes law by named none e = (named, e)
  file-HasReason vm file parses describes law by named (some config) e =
      started-HasReason vm file (parses config) (describes config) (by config e) (law config)

  module _ (toml_laws : TomlLaws t) (json_laws : JsonLaws j) (vm : List (Text × Text)) where
    local-HasReason :
        (file : Text)
        → lookup (codes "local") vm ≡ some file
        → HasReason vm (handle_local_config n t j env sh file)
    unfolding handle_local_config
    local-HasReason file named =
        file-HasReason vm file (parse_local_config n t) (described_client_file n t)
          (parse_local_config-Loads n t toml_laws) (λ config e. by_local config named e) (inl named)
          (sh.load file) refl

    remote-HasReason :
        (file : Text)
        → lookup (codes "remote") vm ≡ some file
        → HasReason vm (handle_remote_tunnel n t j env sh file)
    unfolding handle_remote_tunnel
    remote-HasReason file named =
        file-HasReason vm file (parse_remote_config n t j env) (described_remote_file n t j env)
          (parse_remote_config-Loads n t j env toml_laws json_laws)
          (λ config e. by_remote config named e) (inr named) (sh.load file) refl

    command-HasReason : HasReason vm (run_command n t j env sh vm)
    unfolding run_command
    command-HasReason = elim (Bool-cases (is_some (lookup (codes "help") vm))) [
      | inl help ↦ rw help help
      | inr no_help ↦ elim (Bool-cases (is_some (lookup (codes "version") vm))) [
        | inl version ↦ rw (no_help, version) version
        | inr no_version ↦ elim (Option-cases (lookup (codes "local") vm)) [
          | inr (file, e) ↦ rw (no_help, no_version, e) (local-HasReason file e)
          | inl e ↦ elim (Option-cases (lookup (codes "remote") vm)) [
            | inr (file, f) ↦ rw (no_help, no_version, e, f) (remote-HasReason file f)
            | inl f ↦ rw (no_help, no_version, e, f) (e, f)
          ]
        ]
      ]
    ]

  module _ (toml_laws : TomlLaws t) (json_laws : JsonLaws j) where
    line-IsExplained :
        (line : Option (List (Text × Text)))
        → IsExplained line
            (elim line [ none ↦ command_line_error | some vm ↦ run_command n t j env sh vm ])
    line-IsExplained none = refl
    line-IsExplained (some vm) = command-HasReason toml_laws json_laws vm

    -- With casts of nodes that agree with their tests and JSON laws as listed, each end of
    -- `Cli::parse`, which the public `Parse` does not call, has its reason. The client runs only
    -- with the services that a file describes which the options name as a local or a remote one and
    -- which can be read, each under its own drawn id; the program ends by `exit` only for such a
    -- file that describes none; a file is reported only if it was named and cannot be read; help
    -- and version are printed only on their options, and a missing command is reported only without
    -- a local and a remote file. Only a command line that is refused ends by the error of the
    -- option parser. A configuration's exception never becomes the `runtime_error` of the handlers,
    -- and no null pointer is used.
    pub parse_cli-IsExplained :
        (argv : List Text) → IsExplained (sh.parse_command_line argv) (parse_cli n t j env sh argv)
    unfolding parse_cli
    parse_cli-IsExplained argv = line-IsExplained (sh.parse_command_line argv)
