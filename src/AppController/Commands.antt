-- ===== src/AppController/Commands.antt =====
-- The answer to a command: the second half of `processSecureMqtt` and `acknowledgeUnsupportedCommand`.
use multisensory_device.Base.{
  ℕ, ◌≡◌, ◌≢◌, ◌⊎◌, inl, inr, ap, Bool, true, false, not, ◌||◌, Option, none, some, List, [], ◌∷◌,
  ◌++◌, arith, leb, ◌==◌, if◌then◌else◌, length, same_text, same_text_iff, Bool-cases, Option-cases,
}
use multisensory_device.Base.Int.{ℤ, pos, same_int, same_int_iff}
use multisensory_device.Base.Text.{codes}
use multisensory_device.SecureMqtt.{EspMqtt, SecureMqtt}
use multisensory_device.SecureMqtt.Publish.{publish_command_ack, publish_to, is_sent-client}

pub data Value : Type 0 where
  number : ℕ → Value
  text : List ℕ → Value
  flag : Bool → Value

-- What is used of ArduinoJson, which is not part of the repository. A member that is missing, or of
-- another type, reads as 0 or as the empty string.
pub record Json : Type 1 where
  pub Document : Type 0
  pub deserialize : List ℕ → Option Document
  pub get_int : Document → List ℕ → ℤ
  pub get_text : Document → List ℕ → List ℕ
  -- The bytes that are written to a buffer of the given size.
  pub serialize : List (List ℕ × Value) → ℕ → List ℕ

-- DEVICE_ID and VEHICLE_ID
pub record Names : Type 0 where
  pub device_id : List ℕ
  pub vehicle_id : List ℕ

-- The uptime, and the wall clock's text if it is set.
pub record Stamp : Type 0 where
  pub uptime_ms : ℕ
  pub measured_at : Option (List ℕ)

-- What was received is a command.
unfoldable pub is_command : (json : Json) → json.Document → Bool
is_command json d = not (
    not (same_int (json.get_int d (codes "schema_version")) (pos 1))
    || not (same_text (json.get_text d (codes "message_type")) (codes "command")))

-- The command has an id and is for this device.
unfoldable pub is_for_us : (json : Json) → Names → json.Document → Bool
is_for_us json names d = not (
    length (json.get_text d (codes "command_id")) == 0
    || not (same_text (json.get_text d (codes "device_id")) names.device_id)
    || not (same_text (json.get_text d (codes "vehicle_id")) names.vehicle_id))

abbrev acknowledged_at : Option (List ℕ) → List (List ℕ × Value)
acknowledged_at none = (codes "time_valid", flag false) ∷ []
acknowledged_at (some at) =
    (codes "time_valid", flag true) ∷ (codes "acknowledged_at", text at) ∷ []

unfoldable pub unsupported_ack : Names → Stamp → List ℕ → List (List ℕ × Value)
unsupported_ack names stamp command_id =
    ((codes "schema_version", number 1)
      ∷ (codes "message_type", text (codes "command_ack"))
      ∷ (codes "command_id", text command_id)
      ∷ (codes "device_id", text names.device_id)
      ∷ (codes "vehicle_id", text names.vehicle_id)
      ∷ (codes "state", text (codes "unsupported"))
      ∷ (codes "uptime_ms", number stamp.uptime_ms)
      ∷ [])
    ++ (acknowledged_at stamp.measured_at
        ++ ((codes "error_code", text (codes "COMMAND_HANDLER_DEFERRED"))
            ∷ (
              codes "message",
              text (codes "Command execution is not enabled in this firmware phase"),
            )
            ∷ (codes "simulated", flag false)
            ∷ []))

command_fields :
    (json : Json) (d : json.Document)
    → is_command json d ≡ true
    → (json.get_int d (codes "schema_version") ≡ pos 1)
      × (json.get_text d (codes "message_type") ≡ codes "command")
unfolding is_command
command_fields json d h = (
  ground (arith, h, (same_int_iff (json.get_int d (codes "schema_version")) (pos 1)).0),
  ground (arith, h, (same_text_iff (json.get_text d (codes "message_type")) (codes "command")).0),
)

addressed_fields :
    (json : Json) (names : Names) (d : json.Document)
    → is_for_us json names d ≡ true
    → (json.get_text d (codes "command_id") ≢ [])
      × (json.get_text d (codes "device_id") ≡ names.device_id)
      × (json.get_text d (codes "vehicle_id") ≡ names.vehicle_id)
unfolding is_for_us
addressed_fields json names d h = (
  λ e. ground (arith, h, ap length e),
  ground (arith, h, (same_text_iff (json.get_text d (codes "device_id")) names.device_id).0),
  ground (arith, h, (same_text_iff (json.get_text d (codes "vehicle_id")) names.vehicle_id).0),
)

module _ (esp : EspMqtt) (json : Json) (names : Names) (stamp : Stamp) where
  unfoldable pub acknowledge_unsupported_command : List ℕ → SecureMqtt → esp.Client → esp.Client
  acknowledge_unsupported_command command_id m c =
      let payload = json.serialize (unsupported_ack names stamp command_id) 768 in
      let (_, c1) = publish_command_ack esp payload m c in
      if length payload == 0 || leb 768 (length payload) then c else c1

  unfoldable pub answer : List ℕ → SecureMqtt → esp.Client → esp.Client
  answer received m c = elim (json.deserialize received) [
    | none ↦ c
    | some d ↦
        let command_id = json.get_text d (codes "command_id") in
        let replied = acknowledge_unsupported_command command_id m c in
        if not (is_command json d) then c else if not (is_for_us json names d) then c else replied
  ]

  -- The acknowledgement is published, or it does not fit.
  acknowledged_or_not :
      (command_id : List ℕ) (m : SecureMqtt) (c : esp.Client)
      → (acknowledge_unsupported_command command_id m c ≡ c)
        ⊎ (acknowledge_unsupported_command command_id m c
            ≡ (publish_to esp m.topics.command_acks
                (json.serialize (unsupported_ack names stamp command_id) 768)
                1
                false
                m.link
                c).1)
  unfolding acknowledge_unsupported_command publish_command_ack
  acknowledged_or_not command_id m c =
      let payload = json.serialize (unsupported_ack names stamp command_id) 768 in
      let sent = publish_to esp m.topics.command_acks payload 1 false m.link c in
      elim (Bool-cases (length payload == 0 || leb 768 (length payload))) [
        | inl e ↦ inl (rw e)
        | inr e ↦ inr (rw (e, is_sent-client esp sent))
      ]

  -- A received text is answered by nothing, or it is a command of version 1 with an id, for this device and
  -- this vehicle, and what is published is the message that it is unsupported, with that id, on the topic of
  -- acknowledgements.
  pub answer_addressed :
      (received : List ℕ) (m : SecureMqtt) (c : esp.Client)
      → (answer received m c ≡ c)
        ⊎ ((d : json.Document) × (json.deserialize received ≡ some d)
            × (json.get_int d (codes "schema_version") ≡ pos 1)
            × (json.get_text d (codes "message_type") ≡ codes "command")
            × (json.get_text d (codes "command_id") ≢ [])
            × (json.get_text d (codes "device_id") ≡ names.device_id)
            × (json.get_text d (codes "vehicle_id") ≡ names.vehicle_id)
            × (answer received m c
                ≡ (publish_to esp m.topics.command_acks
                    (json.serialize
                      (unsupported_ack names stamp (json.get_text d (codes "command_id")))
                      768)
                    1
                    false
                    m.link
                    c).1))
  unfolding answer
  answer_addressed received m c = elim (Option-cases (json.deserialize received)) [
    | inl e ↦ inl (rw (answer, e))
    | inr (d, e) ↦ elim (Bool-cases (is_command json d)) [
      | inr n ↦ inl (rw (answer, e, n))
      | inl y ↦ elim (Bool-cases (is_for_us json names d)) [
        | inr n ↦ inl (rw (answer, e, y, n))
        | inl z ↦
            let (version, kind) = command_fields json d y in
            let (id, device, vehicle) = addressed_fields json names d z in
            elim (acknowledged_or_not (json.get_text d (codes "command_id")) m c) [
              | inl k ↦ inl (rw (answer, e, y, z, k))
              | inr k ↦ inr (d, e, version, kind, id, device, vehicle, rw (answer, e, y, z, k))
            ]
      ]
    ]
  ]
