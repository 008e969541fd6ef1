-- ===== src/Metadata/Tests.antt =====
-- base_rpc/src/interceptor.rs: a request on small inputs.
use pigs.Prelude.{
  ℕ, Bool, true, false, ◌&&◌, Option, none, some, [], ◌∷◌, leb, ◌≡◌, refl, sym, update, codes,
  arith,
}
use pigs.Metadata.{
  Text, RpcMetadata, MetadataMap, Called, ok, invalid_metadata, and_then, strip_prefix, with_prefix,
  without_prefix, insert_parsed, insert_value, insert_optional, call, text_of, get_value,
  extract_rpc_metadata,
}
use pigs.Metadata.Reading.{IsFresh, Reads, call-Reads}

-- The characters that a value may have.
abbrev is_visible : Text → Bool
is_visible [] = true
is_visible (c ∷ t) = leb 32 c && leb c 126 && is_visible t

abbrev checked : Bool → Text → Option Text
checked true t = some t
checked false t = none

checked-some : (b : Bool) (t v : Text) → checked b t ≡ some v → some v ≡ some t
checked-some true t v e = sym e
checked-some false t v e = absurd (ground (arith, e))

abbrev plain_map : MetadataMap
plain_map = record {
  Entries = ℕ → Option Text;
  Value = Text;
  insert = λ m name v. update m name (some v);
  get = λ m name. m name;
  from_str = λ t. checked (is_visible t) t;
  to_str = λ v. some v;
  get-insert = λ m name k v. refl;
  to_str-from_str = λ t v e. checked-some (is_visible t) t v e;
}

abbrev empty : ℕ → Option Text
empty name = none

abbrev metadata : RpcMetadata
metadata = record {
  request_id = some (codes "request-1");
  trace_id = none;
  node_id = some (codes "stream-1");
  instance_id = none;
  protocol_version = some (codes "v1");
  bearer_token = some (codes "secret");
}

program : Unit {0}
unfolding and_then strip_prefix with_prefix without_prefix insert_parsed insert_value
    insert_optional call text_of get_value extract_rpc_metadata
program = _

abbrev authorization_of : Called (ℕ → Option Text) → Option Text
authorization_of (ok m) = m 5
authorization_of (invalid_metadata name value) = none

sent : authorization_of (call plain_map metadata empty) ≡ some (codes "Bearer secret")
unfolding program
sent = refl

-- A line break is no metadata value.
refused :
    call plain_map (record metadata { trace_id = some (10 ∷ []) }) empty
    ≡ invalid_metadata 1 (10 ∷ [])
unfolding program
refused = refl

empty-IsFresh : IsFresh plain_map empty
unfolding program
empty-IsFresh k h = refl

call-Reads_example : Reads plain_map metadata (call plain_map metadata empty)
call-Reads_example = call-Reads plain_map metadata empty empty-IsFresh
