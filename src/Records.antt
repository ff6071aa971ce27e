-- ===== src/Records.antt =====
-- The records that the services pass around: the response DTOs of src/ambiente and src/inbox, with
-- the instants as milliseconds.
use whiz_gateway.Base.{ℕ, String, Bool, Option}

pub record Ambiente : Type 0 where
  pub id : ℕ
  pub nome : String
  pub url : String
  pub del : Bool

pub record Inbox : Type 0 where
  pub id : String
  pub id_ambiente : ℕ
  pub pid : String
  pub nome : String
  pub waba_id : Option String
  pub del : Bool
  pub data_ms : ℕ
