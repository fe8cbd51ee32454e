-- ===== src/Protocol/Content.antt =====
-- Messages, statuses and artifacts (packages/protocol/src/index.ts), and their A2A forms, with
-- packages/server/src/parts.ts between them.
use vicoop_bridge.Prelude.{ℕ, String, List, Option}
use vicoop_bridge.Protocol.Values.{Json}

pub record WireFile : Type 0 where
  pub name : Option String
  pub mime_type : Option String
  pub bytes : Option String
  pub uri : Option String

-- The discriminated union on `kind`.
pub data WirePart : Type 0 where
  text_part : String → WirePart
  file_part : WireFile → WirePart
  data_part : Json → WirePart

pub data Role : Type 0 where
  user agent : Role

pub record WireMessage : Type 0 where
  pub role : Role
  pub parts : List WirePart
  pub message_id : String
  pub metadata : Option Json
  pub extensions : Option (List String)

pub data TaskState : Type 0 where
  submitted working input_required auth_required completed canceled failed : TaskState

-- A timestamp is a text off the wire, or the text of an instant that the server took.
pub data Timestamp : Type 0 where
  given : String → Timestamp
  instant : ℕ → Timestamp

pub record WireStatus : Type 0 where
  pub state : TaskState
  pub message : Option WireMessage
  pub timestamp : Option Timestamp

pub record Artifact : Type 0 where
  pub artifact_id : String
  pub name : Option String
  pub parts : List WirePart
  pub metadata : Option Json
  pub extensions : Option (List String)

pub record TaskUsage : Type 0 where
  pub prompt_tokens : ℕ
  pub completion_tokens : ℕ
  pub cached_input_tokens : Option ℕ
  pub model : Option String

-- The SDK's flat part: a text, a JSON value, or a file by content or by address.
pub data A2xPart : Type 0 where
  text : String → A2xPart
  json : Json → A2xPart
  file : (raw url filename media_type : Option String) → A2xPart

pub record A2xMessage : Type 0 where
  pub message_id : String
  pub role : Role
  pub parts : List A2xPart
  pub metadata : Option Json
  pub extensions : Option (List String)
  pub task_id : String
  pub context_id : String

pub record A2xStatus : Type 0 where
  pub state : TaskState
  pub timestamp : Option Timestamp
  pub message : Option A2xMessage

pub record A2xArtifact : Type 0 where
  pub artifact_id : String
  pub name : Option String
  pub metadata : Option Json
  pub extensions : Option (List String)
  pub parts : List A2xPart

-- `partToA2X` on a part that the wire schema has parsed.
unfoldable pub part_to_a2x : WirePart → A2xPart
part_to_a2x (text_part s) = text s
part_to_a2x (file_part f) = file f.bytes f.uri f.name f.mime_type
part_to_a2x (data_part j) = json j
