-- ===== src/Protocol/Json.antt =====
-- The JSON values of serde_json that the frames carry. The text of a value is that library's matter.
use browser_skill.Prelude.{Bool, String}

mutual
  pub data Value : Type 0 where
    null : Value
    bool : Bool → Value
    -- A number, as its literal.
    number : String → Value
    string : String → Value
    array : Values → Value
    object : Fields → Value

  pub data Values : Type 0 where
    nil : Values
    item : Value → Values → Values

  -- The fields of an object, in their order.
  pub data Fields : Type 0 where
    end : Fields
    field : String → Value → Fields → Fields

-- `{ "rpc_id": … }`, `{ "reason": … }` and `{ "session_id": … }`.
abbrev pub rpc_id_object : String → Value
rpc_id_object x = object (field "rpc_id" (string x) end)

abbrev pub reason_object : String → Value
reason_object x = object (field "reason" (string x) end)

abbrev pub session_id_object : String → Value
session_id_object x = object (field "session_id" (string x) end)
