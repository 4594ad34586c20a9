-- ===== src/Logger/Sample.antt =====
-- A zap whose cores are names, for tests.
use notes_microservices.Prelude.{String, pos, none}
use notes_microservices.Action.{ok}
use notes_microservices.Logger.{Zap, Context}

abbrev pub sample_zap : Zap String
sample_zap = record {
  parse_level = λ name. ok (pos 0);
  build = λ cfg. ok "zap";
  nop = "nop";
  named = λ core name. name;
  attach = λ core fields. core;
}

abbrev pub no_values : Context String
no_values = record { logger = none; id = none; bearer_token = none; user_id = none }
