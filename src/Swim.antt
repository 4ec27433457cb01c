-- ===== src/Swim.antt =====
-- The membership protocol of internal/swim/swim.go. The clock `now` counts nanoseconds from Go's zero
-- time. The map owns each member, which no code removes, so a pointer to a member is its ID. Texts
-- stand for the byte slices of payloads. What is sent is appended to `outbox`, what is put in the
-- channel of events to `events` (a send waits while the channel is full).
pub mod Handlers
pub mod Probes
pub mod Step
pub mod Keeping
pub mod Incarnations
pub mod Deaths
pub mod Silence
mod Tests
use geryon.Base.{
  ℕ, Bool, true, false, List, [], ◌∷◌, ◌++◌, Option, none, some, String, ◌&&◌, not, str_eq, leb,
  if◌then◌else◌, string_discrete,
}
use geryon.Base.Map.{lookup, put}
use Prim.Native.String.{◌++◌ as text_append}

pub data MemberState : Type 0 where
  alive suspect dead : MemberState

pub record Member : Type 0 where
  pub id : String
  pub address : String
  pub state : MemberState
  pub incarnation : ℕ
  pub last_seen : ℕ
  pub last_probe : ℕ

pub record MemberInfo : Type 0 where
  pub id : String
  pub address : String
  pub state : MemberState
  pub incarnation : ℕ

pub data EventType : Type 0 where
  member_join member_leave member_update : EventType

pub record Event : Type 0 where
  pub kind : EventType
  pub member : String

pub data MessageType : Type 0 where
  ping ack ping_req suspected announced died sync : MessageType

pub record Message : Type 0 where
  pub kind : MessageType
  pub source : String
  pub target : String
  pub incarnation : ℕ
  pub payload : String
  pub members : List MemberInfo
  pub signature : String

-- A message with the fields that the code leaves out at their zero values.
abbrev pub message : MessageType → String → Message
message kind source = record {
  kind = kind;
  source = source;
  target = "";
  incarnation = 0;
  payload = "";
  members = [];
  signature = "";
}

pub record Protocol : Type 0 where
  pub id : String
  pub addr : String
  pub secret : String
  pub members : List (String × Member)
  pub probe_timeout : ℕ
  pub suspect_timeout : ℕ
  -- The channels that cancel a probe, by their number; the number of the next one.
  pub pending_probes : List (String × ℕ)
  pub next_channel : ℕ
  pub outbox : List (String × Message)
  pub events : List Event

unfoldable pub new_protocol : String → String → Protocol
new_protocol id addr = record {
  id = id;
  addr = addr;
  secret = "";
  members = [];
  probe_timeout = 500000000;
  suspect_timeout = 5000000000;
  pending_probes = [];
  next_channel = 0;
  outbox = [];
  events = [];
}

-- What the protocol calls: the field of a JSON payload (`none` when it cannot be read), the format of
-- addresses, and HMAC-SHA256, under the secret, of the type, the source with the target behind it, the
-- incarnation, the payload and the members.
pub record Calls : Type 0 where
  pub target_of : String → Option String
  pub address_of : String → Option String
  pub is_valid_address : String → Bool
  pub hmac : String → MessageType → String → ℕ → String → List MemberInfo → String

abbrev pub find : String → Protocol → Option Member
find id p = lookup string_discrete id p.members

-- A write through the pointer to a member.
abbrev pub write : String → Member → Protocol → Protocol
write id m p = record p { members = put string_discrete id m p.members }

abbrev pub is_alive : Member → Bool
is_alive m = elim m.state [ alive ↦ true | _ ↦ false ]

abbrev pub is_suspect : Member → Bool
is_suspect m = elim m.state [ suspect ↦ true | _ ↦ false ]

unfoldable pub compute_hmac : Calls → Message → Protocol → String
compute_hmac c msg p =
    c.hmac p.secret msg.kind (text_append msg.source msg.target) msg.incarnation msg.payload
      msg.members

unfoldable pub verify_hmac : Calls → Message → Protocol → Bool
verify_hmac c msg p = str_eq msg.signature (compute_hmac c msg p)
