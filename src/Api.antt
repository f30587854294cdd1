-- ===== src/Api.antt =====
-- signaling/api-v1: the auth token and the messages of the RTM API. A message is kept as the value
-- that the program encodes; the JSON text of it is not modelled.
use kwmserver.Base.{ℕ, Ptr, String, Bool, Dict, lookup, Option, none, some, List, Error}

-- A value of a claims map: the program reads texts and nested maps.
pub data Claim : Type 0 where
  text : String → Claim
  other : Claim

-- AdminAuthToken of admin.go. A nil map is `none`.
pub record AdminAuthToken : Type 0 where
  pub subject : String
  pub type : String
  pub value : String
  pub expires_at : ℕ
  pub claims : Option (Dict Claim)
  pub auth : String
  pub group_restriction : Option (Dict Bool)
  pub can_create_channels : Bool

abbrev pub claim_text : Option Claim → String
claim_text (some (text s)) = s
claim_text _ = ""

abbrev pub claims_name : Option (Dict Claim) → String
claims_name none = ""
claims_name (some m) = claim_text (lookup "name" m)

-- AdminAuthToken.Name
abbrev pub token_name : AdminAuthToken → String
token_name t = claims_name t.claims

-- RTMDataProfile
pub record Profile : Type 0 where
  pub name : String

-- RTMTDataWebRTCChannelGroup
pub record ChannelGroup : Type 0 where
  pub group : String
  pub members : List String
  pub reset : Bool

-- RTMDataWebRTCChannelPipeline
pub record ChannelPipeline : Type 0 where
  pub pipeline : String
  pub mode : String

-- RTMDataWebRTCChannelExtra
pub record ChannelExtra : Type 0 where
  pub group : Option ChannelGroup
  pub pipeline : Option ChannelPipeline
  pub replaced : Bool

abbrev pub no_extra : ChannelExtra
no_extra = record { group = none; pipeline = none; replaced = Bool.false }

-- RTMDataWebRTCAccept
pub record Accept : Type 0 where
  pub accept : Bool
  pub state : String
  pub reason : String

-- RTMDataChatsMessage. Of the `extra` map the program sets the id, and refuses one from a client.
pub record ChatsMessage : Type 0 where
  pub kind : String
  pub sender : String
  pub target : String
  pub ts : ℕ
  pub text : String
  pub rich_text : String
  pub id : String
  pub extra : Option String

-- json.RawMessage: text from a client, or what the program encodes.
pub data Json : Type 0 where
  raw : String → Json
  channel_extra : ChannelExtra → Json
  chats_message : ChatsMessage → Json

-- RTMTypeWebRTC with its envelope
pub record WebRtc : Type 0 where
  pub id : ℕ
  pub type : String
  pub subtype : String
  pub target : String
  pub source : String
  pub profile : Option Profile
  pub initiator : Bool
  pub state : String
  pub channel : String
  pub group : String
  pub hash : String
  pub version : ℕ
  pub transaction : String
  pub pcid : String
  pub payload : Option Json

-- RTMTypeWebRTCReply with its envelope
pub record WebRtcReply : Type 0 where
  pub type : String
  pub subtype : String
  pub reply_to : ℕ
  pub state : String
  pub channel : String
  pub hash : String
  pub version : ℕ
  pub payload : Option Json

-- RTMTypeChats with its envelope
pub record Chats : Type 0 where
  pub id : ℕ
  pub type : String
  pub subtype : String
  pub channel : String
  pub profile : Option Profile
  pub group : String
  pub version : ℕ
  pub payload : Option Json

-- RTMTypeChatsReply with its envelope
pub record ChatsReply : Type 0 where
  pub type : String
  pub subtype : String
  pub reply_to : ℕ
  pub channel : String
  pub group : String
  pub version : ℕ
  pub payload : Option Json

-- Self of common.go
pub record Self : Type 0 where
  pub id : String
  pub name : String
  pub auth : String

-- `kustomer` is a pointer to a number, and Equal compares the pointers.
pub record ServerStatus : Type 0 where
  pub kustomer : Ptr

-- RTMTypeHello: hello, goodbye and server
pub record Hello : Type 0 where
  pub type : String
  pub self : Option Self
  pub server_status : Option ServerStatus

-- WebsocketMessage of signaling/mcu/mcu.go
pub record McuMessage : Type 0 where
  pub type : String
  pub transaction : String
  pub plugin : String
  pub handle : ℕ

-- What is put into the send queue of a connection. A pong repeats the ping, with a new token if
-- one was signed.
pub data Payload : Type 0 where
  hello : Hello → Payload
  error : Error → Payload
  pong : String → Option String → Payload
  webrtc : WebRtc → Payload
  webrtc_reply : WebRtcReply → Payload
  chats : Chats → Payload
  chats_reply : ChatsReply → Payload
  mcu : McuMessage → Payload
