-- ===== src/Client/Decoding.antt =====
-- Decoded messages of contract calls.
use subql_cosmos.Base.{
  String, ◌≡◌, ◌≢◌, refl, ◌∙◌, true, false, any, ◌==◌, text_strict, eq_iff, arith, ok,
  if◌then◌else◌,
}
use subql_cosmos.Value.{Value, obj, Fields, end, field, field_of, get_property}
use subql_cosmos.Chain.{DecodeObject}
use subql_cosmos.Client.{ClientLib, set_field, json_types, decode_msg}

-- A property that was set is read back, and the others are as they were.
pub field_of-set_field :
    (fields : Fields) (key : String) (value : Value) (k : String)
    → field_of (set_field fields key value) k ≡ (if key == k then value else field_of fields k)
unfolding field_of set_field
field_of-set_field end key value k = refl
field_of-set_field (field k₁ v fields) key value k =
    ground (arith, eq_iff k₁ key, eq_iff k₁ k, eq_iff key k, field_of-set_field fields key value k)

-- The decoded message of a contract call has the parsed JSON as its `msg`, and its other properties
-- as the registry decoded them.
pub decode_msg_contract :
    (lib : ClientLib) (msg : DecodeObject) (fields : Fields) (text : String) (json : Value)
    → any (λ type. type == msg.type_url) json_types ≡ true
    → lib.decode msg ≡ ok (obj fields)
    → lib.decode_text (field_of fields "msg") ≡ ok text
    → lib.parse_json text ≡ ok json
    → (fields' : Fields) × (decode_msg lib msg ≡ ok (obj fields'))
      × (field_of fields' "msg" ≡ json)
      × ((k : String) → k ≢ "msg" → field_of fields' k ≡ field_of fields k)
unfolding decode_msg get_property
decode_msg_contract lib msg fields text json contract decodes texts parses = (
  set_field fields "msg" json,
  rw decodes (rw contract (rw texts (rw parses refl))),
  field_of-set_field fields "msg" json "msg",
  λ k other.
      let apart : ("msg" == k) ≡ false = ground (arith, eq_iff "msg" k) in
      field_of-set_field fields "msg" json k ∙ rw apart refl,
)
