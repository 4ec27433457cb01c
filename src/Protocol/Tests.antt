-- ===== src/Protocol/Tests.antt =====
-- A parameter and its length, as internal/protocol/common/message.go writes them.
use geryon.Base.{◌≡◌, List, [], ◌∷◌, some, arith}
use geryon.Protocol.{
  Field, uint, bytes, zero_ended, prefixed, new_buffer, write_fields, read_fields,
}
use geryon.Protocol.Fields.{read_fields-write_fields}

abbrev fields : List Field
fields = uint 2 258 ∷ zero_ended (97 ∷ 98 ∷ []) ∷ prefixed (99 ∷ []) ∷ bytes (0 ∷ []) ∷ []

read_fields-write_fields_example :
    read_fields fields (write_fields fields (new_buffer [])) ≡ some fields
read_fields-write_fields_example =
    read_fields-write_fields fields
      (omega arith, ((λ e. ground arith, (λ e. ground arith, tt)), (omega arith, (tt, tt))))
