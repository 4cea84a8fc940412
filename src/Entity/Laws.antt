-- ===== src/Entity/Laws.antt =====
-- Reading back the fields of a payload that was marshalled from a map.
use menuvex_printer.Entity.{field_in, field_of, field_text}
use menuvex_printer.Json.{Json, encode_map}
use menuvex_printer.Json.Laws.{IsUnique, lookup-decode-encode}
use menuvex_printer.Prelude.{Map, String, arith, lookup, string_eq, ◌≡◌}

pub field_of-encode :
    (m : Map String Json) (k : String)
    → IsUnique m
    → field_of (encode_map m) k ≡ field_text (lookup k m)
unfolding field_of field_in
field_of-encode m k u =
    let (n, decoded, same) = lookup-decode-encode k m u in ground (arith, decoded, same)
