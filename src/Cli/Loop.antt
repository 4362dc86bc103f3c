-- ===== src/Cli/Loop.antt =====
-- lekv_cli.cpp: Run, Init and `main` of the client.
use le_kv.Base.{ℕ, Bool, true, false, Option, none, some, List, [], ◌∷◌, if◌then◌else◌, ◌>>=◌}
use le_kv.Bytes.{Bytes}
use le_kv.Boot.{ConfigFile, read_master_config}
use le_kv.Cli.{Outcome, bye}
use le_kv.Cli.Session.{Network, LekvCli, new_client}
use le_kv.Cli.Commands.{execute}

-- Whether Execute ended the program.
abbrev pub is_bye : Outcome → Bool
is_bye bye = true
is_bye _ = false

module _ (net : Network) where
  -- LekvCli::Run on the lines of its input: what each prints, up to the end or an exit.
  unfoldable pub run : LekvCli net → List Bytes → Option (List Outcome × LekvCli net)
  run c [] = some ([], c)
  run c (line ∷ lines) = do
    r ← execute net c line
    if is_bye r.0
        then some (r.0 ∷ [], r.1)
        else do more ← run r.1 lines; some (r.0 ∷ more.0, more.1)

  -- Init of a new client.
  unfoldable pub init : net.World → Bytes → ℕ → LekvCli net
  init w master_ip master_port = record {
    master_ip = master_ip;
    master_port = master_port;
    proxy_conn = new_client;
    req_id = 1;
    world = w;
  }

  -- `main` of the client: its result, and what it prints.
  unfoldable pub client_main : ConfigFile → net.World → List Bytes → Option (ℕ × List Outcome)
  unfolding run init
  client_main file w lines = elim (read_master_config file) [
    | none ↦ some (1, [])
    | some master ↦ do r ← run (init w master.ip master.port) lines; some (0, r.0)
  ]
