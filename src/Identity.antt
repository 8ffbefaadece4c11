-- ===== src/Identity.antt =====
-- src/shyam/identity/model.py. The id is a UUID as a text.
use shyam.Base.{String}

pub record NodeIdentity : Type 0 where
  pub node_id : String
  pub node_name : String
  pub protocol_version : String
