-- ===== src/Log/Field.antt =====
-- log/log.go: the fields of a log entry.
use Prim.Native.String
use rxd.Base.{ℕ, ◌+◌, String, Bool, true, false}
use rxd.Log.Text.{decimal}

pub record Field : Type 0 where
  pub key : String
  pub value : String

-- log.String, and log.Error by the error's text.
abbrev pub string_field : String → String → Field
string_field key value = record { key = key; value = value }

abbrev pub error_field : String → String → Field
error_field key text = record { key = key; value = text }

unfoldable pub bool_field : String → Bool → Field
bool_field key true = record { key = key; value = "true" }
bool_field key false = record { key = key; value = "false" }

-- A number, `negative n` being -(n + 1).
pub data Integer : Type 0 where
  nonneg negative : ℕ → Integer

-- The value that Int is given, by its dynamic type.
pub data IntValue : Type 0 where
  int int8 int16 int32 int64 : Integer → IntValue
  uint uint8 uint16 uint32 uint64 : ℕ → IntValue
  no_int : IntValue

abbrev pub integer_text : Integer → String
integer_text (nonneg n) = decimal n
integer_text (negative n) = String.◌++◌ "-" (decimal (n + 1))

abbrev pub int_text : IntValue → String
int_text (int n) = integer_text n
int_text (int8 n) = integer_text n
int_text (int16 n) = integer_text n
int_text (int32 n) = integer_text n
int_text (int64 n) = integer_text n
int_text (uint n) = decimal n
int_text (uint8 n) = decimal n
int_text (uint16 n) = decimal n
int_text (uint32 n) = decimal n
int_text (uint64 n) = decimal n
int_text no_int = "<unknown value type for int field>"

unfoldable pub int_field : String → IntValue → Field
int_field key value = record { key = key; value = int_text value }
