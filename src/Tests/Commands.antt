-- ===== src/Tests/Commands.antt =====
-- A command line that names a local file.
use ncx_for_mall.Prelude.{[], ◌∷◌, some, codes}
use ncx_for_mall.Cli.{Shell, parse_cli}
use ncx_for_mall.Cli.Starts.{IsExplained, parse_cli-IsExplained}
use ncx_for_mall.Tests.Configs.{sample_inet, sample_toml, sample_toml_laws, client_file}
use ncx_for_mall.Tests.Gateways.{sample_json, sample_json_laws, sample_surroundings}

abbrev sample_shell : Shell sample_toml
sample_shell = record {
  parse_command_line = λ argv. some ((codes "local", codes "client.toml") ∷ []);
  load = λ file. some client_file;
  ids = λ k. k ∷ [];
}

parse_cli-IsExplained_example :
    IsExplained sample_inet sample_toml sample_json sample_surroundings sample_shell
      (sample_shell.parse_command_line (codes "-l" ∷ codes "client.toml" ∷ []))
      (parse_cli sample_inet sample_toml sample_json sample_surroundings sample_shell
        (codes "-l" ∷ codes "client.toml" ∷ []))
parse_cli-IsExplained_example =
    parse_cli-IsExplained sample_inet sample_toml sample_json sample_surroundings sample_shell
      sample_toml_laws sample_json_laws (codes "-l" ∷ codes "client.toml" ∷ [])
