-- ===== src/Core/Event.antt =====
-- The canonical event of model.go and the records it is made of.
use kazutb_siem.Base.{ℕ, String, Bool, List, [], ◌∷◌}
use kazutb_siem.Base.Int.{ℤ}

-- A value of Go's `interface{}` as the program fills its metadata maps.
mutual
  pub data Value : Type 0 where
    null : Value
    bool : Bool → Value
    num : ℤ → Value
    text : String → Value
    obj : Fields → Value
    arr : Items → Value

  -- map[string]interface{}, in the order in which the fields are written
  pub data Fields : Type 0 where
    field : String → Value → Fields → Fields
    end : Fields

  -- []interface{}
  pub data Items : Type 0 where
    cons : Value → Items → Items
    nil : Items

-- []string as a value
unfoldable pub text_items : List String → Items
text_items [] = nil
text_items (x ∷ xs) = cons (text x) (text_items xs)

pub record EventSource : Type 0 where
  pub vendor : String
  pub product : String
  pub kind : String  -- Type

pub record SchemaRef : Type 0 where
  pub ocsf_version : String
  pub class_uid : ℕ

pub record UserRef : Type 0 where
  pub id : String
  pub name : String
  pub is_privileged : Bool

pub record DeviceRef : Type 0 where
  pub id : String
  pub hostname : String
  pub ip : String
  pub department : String
  pub criticality : ℤ

pub record EndpointRef : Type 0 where
  pub ip : String
  pub port : ℤ
  pub hostname : String

pub record ProcessRef : Type 0 where
  pub name : String
  pub pid : ℕ
  pub command_line : String
  pub parent_name : String

pub record SecurityResult : Type 0 where
  pub action : String
  pub outcome : String

pub record RawRef : Type 0 where
  pub message : String
  pub hash : String
  pub reference : String

pub record ParserRef : Type 0 where
  pub id : String
  pub version : String

pub record CanonicalEvent : Type 0 where
  pub id : String
  pub tenant_id : String
  pub event_time : ℕ
  pub ingest_time : ℕ
  pub collector_id : String
  pub source_id : String
  pub source_address : String
  pub category : String
  pub activity_name : String
  pub source : EventSource
  pub schema : SchemaRef
  pub severity : ℕ
  pub confidence : ℕ
  pub user : UserRef
  pub device : DeviceRef
  pub src_endpoint : EndpointRef
  pub dst_endpoint : EndpointRef
  pub process : ProcessRef
  pub security_result : SecurityResult
  pub raw : RawRef
  pub parser : ParserRef
  pub metadata : Fields
