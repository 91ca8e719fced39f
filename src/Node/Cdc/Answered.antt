-- ===== src/Node/Cdc/Answered.antt =====
-- When a line from USB changes the node's configuration, and how a request is answered.
use uchi_pulse.Base.{
  ℕ, ◌≡◌, ◌⊎◌, ◌∙◌, ap, refl, sym, subst, inl, inr, String, str_eq, true, ◌||◌, ◌==◌, Option, List,
  Result, ok, err, arith, Result-cases, if_each, if_both,
}
use uchi_pulse.Common.Codec.{encode_line, decode_line}
use uchi_pulse.Common.Cdc.{CdcRequest, CdcResponse, cdc_protocol_version}
use uchi_pulse.Node.Config.{PersistedNodeConfig}
use uchi_pulse.Node.Storage.{
  ConfigStorage, ConfigManager, ConfigManagerError, storage_error, serialization,
}
use uchi_pulse.Node.Storage
use uchi_pulse.Node.Cdc.Handler.{
  NodeCdcParams, NodeReply, CdcAction, NodeJson, CdcHandleResult, set_answer, reset_answer,
  CdcParameterError, missing_field, invalid_parameters, set_parsed, into_config, set_config,
  factory_reset, run_command, answer_line, handle_line_with_status,
}

module _ {S E : Type 0} (json : NodeJson) (device : ConfigStorage S E) where
  abbrev Answer : Type 0
  Answer = CdcResponse NodeReply × CdcAction × ConfigManager S

  -- The configuration of the answer is that of before, or the one that the request gives.
  pub data Sets (request : CdcRequest NodeCdcParams) (m : ConfigManager S)
      (after : PersistedNodeConfig) : Type 0 where
    keeps : after ≡ m.config → Sets request m after
    sets :
        str_eq request.command "set_config" ≡ true
        → into_config request.params ≡ ok after
        → Sets request m after

  stored_or_kept :
      (m : ConfigManager S) (config : PersistedNodeConfig)
      → ((Storage.set_config json.envelope device m config).1.config ≡ m.config)
        ⊎ ((Storage.set_config json.envelope device m config).1.config ≡ config)
  unfolding Storage.set_config
  stored_or_kept m config = ground arith

  reset_keeps :
      (m : ConfigManager S) → (Storage.factory_reset json.envelope device m).1.config ≡ m.config
  unfolding Storage.factory_reset
  reset_keeps m = ground arith

  set_config-Sets :
      (m : ConfigManager S) (request : CdcRequest NodeCdcParams)
      → str_eq request.command "set_config" ≡ true
      → Sets request m (set_config json device m request).2.config
  unfolding set_config
  set_config-Sets m request named =
      let parsed = set_parsed json device m request.request_id in
      elim (Result-cases (into_config request.params)) [
        | inr (missing_field, refused) ↦ keeps (ap (λ r. (parsed r).2.config) refused)
        | inr (invalid_parameters e, refused) ↦ keeps (ap (λ r. (parsed r).2.config) refused)
        | inl (config, given) ↦ elim (stored_or_kept m config) [
          | inl kept ↦ keeps (ap (λ r. (parsed r).2.config) given ∙ kept)
          | inr stored ↦
              let now = ap (λ r. (parsed r).2.config) given ∙ stored in
              sets named (given ∙ ap ok (sym now))
        ]
      ]

  -- A response in the protocol's version to the request of this id.
  record Echoes (id : String) (response : CdcResponse NodeReply) : Type 0 where
    pub version : response.version ≡ cdc_protocol_version
    pub request_id : response.request_id ≡ id

  set_answer-Echoes :
      (id : String) (r : Result (ConfigManagerError E) Unit)
      → Echoes id (set_answer json device id r)
  set_answer-Echoes id (ok _) = record { version = refl; request_id = refl }
  set_answer-Echoes id (err (Storage.invalid_config _)) = record {
    version = refl;
    request_id = refl;
  }
  set_answer-Echoes id (err (storage_error _)) = record { version = refl; request_id = refl }
  set_answer-Echoes id (err (serialization _)) = record { version = refl; request_id = refl }

  reset_answer-Echoes :
      (id : String) (r : Result (ConfigManagerError E) Unit)
      → Echoes id (reset_answer json device id r)
  reset_answer-Echoes id (ok _) = record { version = refl; request_id = refl }
  reset_answer-Echoes id (err (Storage.invalid_config _)) = record {
    version = refl;
    request_id = refl;
  }
  reset_answer-Echoes id (err (storage_error _)) = record { version = refl; request_id = refl }
  reset_answer-Echoes id (err (serialization _)) = record { version = refl; request_id = refl }

  set_parsed-Echoes :
      (m : ConfigManager S) (id : String) (r : Result CdcParameterError PersistedNodeConfig)
      → Echoes id (set_parsed json device m id r).0
  set_parsed-Echoes m id (err missing_field) = record { version = refl; request_id = refl }
  set_parsed-Echoes m id (err (invalid_parameters _)) = record { version = refl; request_id = refl }
  set_parsed-Echoes m id (ok config) =
      set_answer-Echoes id (Storage.set_config json.envelope device m config).0

  record Answers (request : CdcRequest NodeCdcParams) (m : ConfigManager S) (a : Answer)
      : Type 0 where
    echo : Echoes request.request_id a.0
    config : Sets request m a.2.config

  -- An answer that leaves the manager alone.
  alone :
      (m : ConfigManager S) (request : CdcRequest NodeCdcParams) (response : CdcResponse NodeReply)
      (next : CdcAction)
      → response.version ≡ cdc_protocol_version
      → response.request_id ≡ request.request_id
      → Answers request m (response, next, m)
  alone m request response next versioned named = record {
    echo = record { version = versioned; request_id = named };
    config = keeps refl;
  }

  run_command-Answers :
      (m : ConfigManager S) (ip hub : Option String) (request : CdcRequest NodeCdcParams)
      → Answers request m (run_command json device m ip hub request)
  unfolding run_command set_config factory_reset
  run_command-Answers m ip hub request =
      let named = λ (command : String). str_eq request.command command in
      if_each (Answers request m) (named "get_config") (alone m request _ _ refl refl) (
        if_each (Answers request m) (named "get_status") (alone m request _ _ refl refl) (
          if_both (Answers request m) (named "set_config")
            (λ set. record {
              echo = set_parsed-Echoes m request.request_id (into_config request.params);
              config = set_config-Sets m request set;
            })
            (λ _.
              if_each (Answers request m) (named "factory_reset")
                (record {
                  echo =
                      reset_answer-Echoes request.request_id
                        (Storage.factory_reset json.envelope device m).0;
                  config = keeps (reset_keeps m);
                })
                (if_each (Answers request m) (named "reboot") (alone m request _ _ refl refl) (
                  if_each (Answers request m)
                    (named "get_info" || named "get_inputs" || named "get_outputs")
                    (alone m request _ _ refl refl) (alone m request _ _ refl refl))))))

  answer_line-Answers :
      (m : ConfigManager S) (line : List ℕ) (ip hub : Option String)
      (request : CdcRequest NodeCdcParams)
      → Answers request m (answer_line json device m line ip hub (ok request))
  unfolding answer_line
  answer_line-Answers m line ip hub request =
      if_each (Answers request m) (request.version == cdc_protocol_version)
        (run_command-Answers m ip hub request) (alone m request _ _ refl refl)

  -- A line that is a request and whose response is sent: what is sent is the line of a response in
  -- the protocol's version with the id of the request, and the configuration is the one of before,
  -- or the request is `set_config` and gives it.
  pub handle_request_result :
      (m : ConfigManager S) (line : List ℕ) (size : ℕ) (ip hub : Option String)
      (request : CdcRequest NodeCdcParams) (result : CdcHandleResult)
      → decode_line json.request line ≡ ok request
      → (handle_line_with_status json device m line size ip hub).0 ≡ ok result
      → (response : CdcResponse NodeReply) × (encode_line json.response response size
          ≡ ok result.response)
        × (response.version ≡ cdc_protocol_version)
        × (response.request_id ≡ request.request_id)
        × Sets request m (handle_line_with_status json device m line size ip hub).1.config
  unfolding handle_line_with_status
  handle_request_result m line size ip hub request result decoded h =
      let answer = answer_line json device m line ip hub in
      let same = ap answer decoded in
      let parts =
        subst (Answers request m) (sym same) (answer_line-Answers m line ip hub request) in
      let response = (answer (decode_line json.request line)).0 in
      elim (Result-cases (encode_line json.response response size)) [
        | inr (e, failed) ↦ absurd (ground arith)
        | inl (out, written) ↦
            let sent : out ≡ result.response = ground arith in
            (
              response,
              written ∙ ap (λ bytes. ok bytes) sent,
              parts.echo.version,
              parts.echo.request_id,
              parts.config,
            )
      ]
