-- ===== src/Node/Cdc/Handled.antt =====
-- Lines from USB keep the configuration of a node valid.
use uchi_pulse.Base.{
  ℕ, ◌≡◌, String, str_eq, ◌||◌, ◌==◌, Option, List, [], ◌∷◌, Result, ok, err, if_each,
}
use uchi_pulse.Common.Codec.{CodecError, decode_line}
use uchi_pulse.Common.Cdc.{CdcRequest, CdcResponse, cdc_protocol_version}
use uchi_pulse.Node.Config.{PersistedNodeConfig, validate}
use uchi_pulse.Node.Storage.{ConfigStorage, ConfigManager}
use uchi_pulse.Node.Storage.Manager.{Running, set, reset, Running-validate}
use uchi_pulse.Node.Cdc.Handler.{
  NodeCdcParams, NodeReply, CdcAction, NodeJson, CdcParameterError, missing_field,
  invalid_parameters, set_parsed, into_config, set_config, factory_reset, run_command, answer_line,
  handle_line_with_status,
}

module _ {S E : Type 0} (json : NodeJson) (device : ConfigStorage S E) where
  abbrev Answer : Type 0
  Answer = CdcResponse NodeReply × CdcAction × ConfigManager S

  -- The manager of the answer is one that the node may have.
  record Runs (defaults : PersistedNodeConfig) (a : Answer) : Type 0 where
    running : Running json.envelope device defaults a.2

  set_parsed-Runs :
      (defaults : PersistedNodeConfig) (m : ConfigManager S) (id : String)
      (r : Result CdcParameterError PersistedNodeConfig)
      → Running json.envelope device defaults m
      → Runs defaults (set_parsed json device m id r)
  set_parsed-Runs defaults m id (err missing_field) now = record { running = now }
  set_parsed-Runs defaults m id (err (invalid_parameters _)) now = record { running = now }
  set_parsed-Runs defaults m id (ok config) now = record { running = set m config now }

  run_command-Runs :
      (defaults : PersistedNodeConfig) (m : ConfigManager S) (ip hub : Option String)
      (request : CdcRequest NodeCdcParams)
      → Running json.envelope device defaults m
      → Runs defaults (run_command json device m ip hub request)
  unfolding run_command set_config factory_reset
  run_command-Runs defaults m ip hub request now =
      let named = λ (command : String). str_eq request.command command in
      if_each (Runs defaults) (named "get_config") (record { running = now })
        (if_each (Runs defaults) (named "get_status") (record { running = now })
          (if_each (Runs defaults) (named "set_config")
            (set_parsed-Runs defaults m request.request_id (into_config request.params) now)
            (if_each (Runs defaults) (named "factory_reset") (record { running = reset m now })
              (if_each (Runs defaults) (named "reboot") (record { running = now })
                (if_each (Runs defaults)
                  (named "get_info" || named "get_inputs" || named "get_outputs")
                  (record { running = now }) (record { running = now }))))))

  answer_line-Runs :
      (defaults : PersistedNodeConfig) (m : ConfigManager S) (line : List ℕ)
      (ip hub : Option String) (r : Result CodecError (CdcRequest NodeCdcParams))
      → Running json.envelope device defaults m
      → Runs defaults (answer_line json device m line ip hub r)
  unfolding answer_line
  answer_line-Runs defaults m line ip hub (err _) now = record { running = now }
  answer_line-Runs defaults m line ip hub (ok request) now =
      if_each (Runs defaults) (request.version == cdc_protocol_version)
        (run_command-Runs defaults m ip hub request now) (record { running = now })

  -- The manager after some lines, each with the length of its buffer and the addresses of the time.
  abbrev pub handle_lines :
      ConfigManager S → List (List ℕ × ℕ × Option String × Option String) → ConfigManager S
  handle_lines m [] = m
  handle_lines m (l ∷ ls) =
      handle_lines (handle_line_with_status json device m l.0 l.1 l.2 l.3).1 ls

  handle_lines-Running :
      (defaults : PersistedNodeConfig) (m : ConfigManager S)
      (ls : List (List ℕ × ℕ × Option String × Option String))
      → Running json.envelope device defaults m
      → Running json.envelope device defaults (handle_lines m ls)
  unfolding handle_line_with_status
  handle_lines-Running defaults m [] now = now
  handle_lines-Running defaults m (l ∷ ls) now =
      let answered = answer_line-Runs defaults m l.0 l.2 l.3 (decode_line json.request l.0) now in
      handle_lines-Running defaults (handle_line_with_status json device m l.0 l.1 l.2 l.3).1 ls
        answered.running

  -- A node whose firmware has valid defaults runs with a configuration that `validate` accepts, after
  -- any lines from USB, whatever they say and whichever calls of its storage fail.
  pub handle_lines-validate :
      (defaults : PersistedNodeConfig) (m : ConfigManager S)
      (ls : List (List ℕ × ℕ × Option String × Option String))
      → validate defaults ≡ ok tt
      → Running json.envelope device defaults m
      → validate (handle_lines m ls).config ≡ ok tt
  handle_lines-validate defaults m ls valid now =
      Running-validate json.envelope device valid (handle_lines-Running defaults m ls now)
